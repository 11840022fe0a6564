-- ===== src/Plane/Calls.antt =====
-- crates/app/src/task_plane.rs: one type for the calls of the operations that change the plane.
use aivtuber.Common.{ℕ, String, Option, none, some, List, [], ◌∷◌}
use aivtuber.Task.Data.{PendingCommitmentKind, TaskLimits, VerificationResult}
use aivtuber.Task.Calls.{Call}
use aivtuber.Plane.Data.{TaskPlane, TaskPlaneError, PlaneResult, ok, err}
use aivtuber.Plane.Operations
use aivtuber.Plane.Operations.{ToolExecutionEvidence}

pub data PlaneCall (R : Type 0) : Type 0 where
  create_task : String → String → ℕ → TaskLimits → PlaneCall R
  begin_planning : String → ℕ → PlaneCall R
  add_step : String → String → PlaneCall R
  mark_ready : String → ℕ → PlaneCall R
  wait_for : String → PendingCommitmentKind → String → ℕ → ℕ → PlaneCall R
  resume : String → ℕ → PlaneCall R
  begin_execution : String → ℕ → ℕ → PlaneCall R
  record_tool_evidence : String → ℕ → ToolExecutionEvidence R → PlaneCall R
  finish_step : String → ℕ → PlaneCall R
  retry_current_step : String → ℕ → PlaneCall R
  replan : String → ℕ → PlaneCall R
  cancel : String → String → ℕ → PlaneCall R
  commit_verification : String → ℕ → VerificationResult → ℕ → PlaneCall R
  expire : ℕ → PlaneCall R

abbrev pub plane_error {ℓ} : {A : Type ℓ} → PlaneResult A → Option TaskPlaneError
plane_error (ok a) = none
plane_error (err e) = some e

module _ {R : Type 0} where
  abbrev pub failing {ℓ} :
      {A : Type ℓ} → TaskPlane R × PlaneResult A → TaskPlane R × Option TaskPlaneError
  failing r = (r.0, plane_error r.1)

  -- The plane after a call, and the error of the call if it failed.
  unfoldable pub plane_call : TaskPlane R → PlaneCall R → TaskPlane R × Option TaskPlaneError
  plane_call p (PlaneCall.create_task id text at_ms l) =
      failing (Operations.create_task p id text at_ms l)
  plane_call p (PlaneCall.begin_planning id now) = failing (Operations.begin_planning p id now)
  plane_call p (PlaneCall.add_step id text) = failing (Operations.add_step p id text)
  plane_call p (PlaneCall.mark_ready id now) = failing (Operations.mark_ready p id now)
  plane_call p (PlaneCall.wait_for id k text ttl now) =
      failing (Operations.wait_for p id k text ttl now)
  plane_call p (PlaneCall.resume id now) = failing (Operations.resume p id now)
  plane_call p (PlaneCall.begin_execution id i now) =
      failing (Operations.begin_execution p id i now)
  plane_call p (PlaneCall.record_tool_evidence id g e) =
      failing (Operations.record_tool_evidence p id g e)
  plane_call p (PlaneCall.finish_step id now) = failing (Operations.finish_step p id now)
  plane_call p (PlaneCall.retry_current_step id now) =
      failing (Operations.retry_current_step p id now)
  plane_call p (PlaneCall.replan id now) = failing (Operations.replan p id now)
  plane_call p (PlaneCall.cancel id text now) = failing (Operations.cancel p id text now)
  plane_call p (PlaneCall.commit_verification id g v now) =
      failing (Operations.commit_verification p id g v now)
  plane_call p (PlaneCall.expire now) = failing (Operations.expire p now)

  -- The changes that a sequence of calls makes.
  unfoldable pub plane_calls : TaskPlane R → List (PlaneCall R) → TaskPlane R
  plane_calls p [] = p
  plane_calls p (c ∷ cs) = plane_calls (plane_call p c).0 cs

  -- The task that a call is about, and the operation of a task that it stands for. Creation and
  -- expiry are about no given task.
  abbrev pub target : PlaneCall R → Option (String × Call R)
  target (PlaneCall.create_task id text at_ms l) = none
  target (PlaneCall.begin_planning id now) = some (id, Call.begin_planning now)
  target (PlaneCall.add_step id text) = some (id, Call.add_step text)
  target (PlaneCall.mark_ready id now) = some (id, Call.mark_ready now)
  target (PlaneCall.wait_for id k text ttl now) = some (id, Call.wait_for k text ttl now)
  target (PlaneCall.resume id now) = some (id, Call.resume now)
  target (PlaneCall.begin_execution id i now) = some (id, Call.begin_execution i now)
  target (PlaneCall.record_tool_evidence id g e) =
      some (id, Call.record_observation g e.result e.verification)
  target (PlaneCall.finish_step id now) = some (id, Call.finish_step now)
  target (PlaneCall.retry_current_step id now) = some (id, Call.retry_current_step now)
  target (PlaneCall.replan id now) = some (id, Call.replan now)
  target (PlaneCall.cancel id text now) = some (id, Call.cancel text now)
  target (PlaneCall.commit_verification id g v now) = some (id, Call.verify g v now)
  target (PlaneCall.expire now) = none
