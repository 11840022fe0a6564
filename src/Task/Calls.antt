-- ===== src/Task/Calls.antt =====
-- crates/domain/src/task.rs: one type for the calls of the operations that change a task.
use aivtuber.Common.{ℕ, String, Option, none, some, List, [], ◌∷◌}
use aivtuber.Task.Data.{
  PendingCommitmentKind, VerificationResult, ToolVerificationOutcome, AgentTask, TaskError, Result,
  ok, err,
}
use aivtuber.Task.Operations
use aivtuber.Task.Execution

pub data Call (R : Type 0) : Type 0 where
  begin_planning : ℕ → Call R
  add_step : String → Call R
  mark_ready : ℕ → Call R
  wait_for : PendingCommitmentKind → String → ℕ → ℕ → Call R
  resume : ℕ → Call R
  begin_execution : ℕ → ℕ → Call R
  record_observation : ℕ → R → ToolVerificationOutcome → Call R
  finish_step : ℕ → Call R
  retry_current_step : ℕ → Call R
  replan : ℕ → Call R
  verify : ℕ → VerificationResult → ℕ → Call R
  cancel : String → ℕ → Call R
  expire_if_needed : ℕ → Call R

abbrev pub error_of {ℓ} : {A : Type ℓ} → Result A → Option TaskError
error_of (ok a) = none
error_of (err e) = some e

module _ {R : Type 0} where
  abbrev failing {ℓ} : {A : Type ℓ} → AgentTask R × Result A → AgentTask R × Option TaskError
  failing r = (r.0, error_of r.1)

  -- The task after a call, and the error of the call if it failed.
  unfoldable pub call : AgentTask R → Call R → AgentTask R × Option TaskError
  call t (Call.begin_planning now) = failing (Operations.begin_planning t now)
  call t (Call.add_step text) = failing (Operations.add_step t text)
  call t (Call.mark_ready now) = failing (Operations.mark_ready t now)
  call t (Call.wait_for k text ttl now) = failing (Operations.wait_for t k text ttl now)
  call t (Call.resume now) = failing (Operations.resume t now)
  call t (Call.begin_execution i now) = failing (Operations.begin_execution t i now)
  call t (Call.record_observation g r v) = failing (Execution.record_observation t g r v)
  call t (Call.finish_step now) = failing (Execution.finish_step t now)
  call t (Call.retry_current_step now) = failing (Execution.retry_current_step t now)
  call t (Call.replan now) = failing (Execution.replan t now)
  call t (Call.verify g v now) = failing (Execution.verify t g v now)
  call t (Call.cancel text now) = failing (Execution.cancel t text now)
  call t (Call.expire_if_needed now) = failing (Operations.expire_if_needed t now)

  -- The changes that a sequence of calls makes.
  unfoldable pub calls : AgentTask R → List (Call R) → AgentTask R
  calls t [] = t
  calls t (c ∷ cs) = calls (call t c).0 cs

-- Names the operations, for proofs that see through all of them.
unfoldable pub operations : Unit {0}
unfolding call Operations.begin_planning Operations.add_step Operations.mark_ready
    Operations.wait_for Operations.resume Operations.begin_execution Operations.expire_if_needed
    Operations.is_terminal Execution.record_observation Execution.finish_step
    Execution.retry_current_step Execution.replan Execution.verify Execution.cancel
operations = tt
