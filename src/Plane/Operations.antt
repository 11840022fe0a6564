-- ===== src/Plane/Operations.antt =====
-- crates/app/src/task_plane.rs: the operations of the task plane.
use Prim.Native.String
use Prim.Native.Nat.{Ordering}
use aivtuber.Common.{
  ℕ, ◌+◌, String, Bool, true, false, none, some, List, [], ◌∷◌, ◌++◌, length, ltb, leb, eqb,
  if◌then◌else◌, string_eq,
}
use aivtuber.Common.Map.{lookup, insert, remove}
use aivtuber.Task.Data.{
  AgentTask, TaskLimits, TaskTransition, TaskStateKind, PendingCommitmentKind, VerificationResult,
  ToolVerificationOutcome, kind, is_terminal_kind,
}
use aivtuber.Task.Data
use aivtuber.Task.Operations
use aivtuber.Task.Execution
use aivtuber.Plane.Collector.{collect}
use aivtuber.Plane.Data.{
  TaskPlane, TaskPlaneError, PlaneResult, ok, err, duplicate_task, active_capacity_exceeded,
  unknown_task, task_not_active, stale_commit, task, find_retained, find_task,
}

-- A tool's evidence: its result and the verdict on it.
pub record ToolExecutionEvidence (R : Type 0) : Type 0 where
  pub result : R
  pub verification : ToolVerificationOutcome

pub record ToolCommitStateSnapshot : Type 0 where
  pub observed_generation : ℕ
  pub cancelled : Bool

abbrev pub is_cancelled_kind : TaskStateKind → Bool
is_cancelled_kind TaskStateKind.cancelled = true
is_cancelled_kind _ = false

-- The order of `TaskId` in a `BTreeMap`.
abbrev pub precedes : String → String → Bool
precedes a b = elim (String.compare a b) [ Ordering.gt ↦ false | _ ↦ true ]

unfoldable pub insert_key : String → List String → List String
insert_key k [] = k ∷ []
insert_key k (j ∷ js) = if precedes k j then k ∷ j ∷ js else j ∷ insert_key k js

module _ {R : Type 0} where
  -- `active.keys()`
  unfoldable pub sorted_keys : List (String × AgentTask R) → List String
  unfolding insert_key
  sorted_keys [] = []
  sorted_keys (entry ∷ rest) = insert_key entry.0 (sorted_keys rest)

  -- `while self.retained.len() > self.config.max_retained_tasks`
  unfoldable pub trim_retained : ℕ → List (AgentTask R) → List (AgentTask R)
  trim_retained bound [] = []
  trim_retained bound (t ∷ ts) =
      let rest = trim_retained bound ts in if ltb bound (length (t ∷ ts)) then rest else t ∷ ts

  -- A task that leaves the active map.
  unfoldable pub retain_task : TaskPlane R → String → AgentTask R → TaskPlane R
  unfolding trim_retained
  retain_task p id t = record p {
    active = remove id p.active;
    retained = trim_retained p.config.max_retained_tasks (p.retained ++ t ∷ []);
  }

  unfoldable pub accept_transition : TaskPlane R → TaskTransition → TaskPlane R
  unfolding collect retain_task
  accept_transition p x =
      let q = record p { transitions = collect p.transitions x } in
      if is_terminal_kind x.to
      then elim (lookup x.task_id q.active) [ none ↦ q | some t ↦ retain_task q x.task_id t ]
      else q

  unfoldable pub create_task :
      TaskPlane R → String → String → ℕ → TaskLimits → TaskPlane R × PlaneResult (Unit {0})
  unfolding find_task
  create_task p id requested created_at limits = elim (find_task p id) [
    | some t ↦ (p, err (duplicate_task id))
    | none ↦
        if leb p.config.max_active_tasks (length p.active)
        then (p, err active_capacity_exceeded)
        else elim (Operations.new_task id requested created_at limits) [
          | Data.err e ↦ (p, err (task e))
          | Data.ok t ↦ (record p { active = insert id t p.active }, ok tt)
        ]
  ]

  -- The error of `active_mut` for a task that is not active.
  unfoldable pub not_active : TaskPlane R → String → TaskPlaneError
  unfolding find_retained
  not_active p id = elim (find_retained id p.retained) [
    | some t ↦ task_not_active id (kind t.state)
    | none ↦ unknown_task id
  ]

  -- `self.active_mut(id)?.operation(..)?`, then `accept_transition`.
  unfoldable pub on_active :
      TaskPlane R
      → String
      → (AgentTask R → AgentTask R × Data.Result TaskTransition)
      → TaskPlane R × PlaneResult TaskTransition
  unfolding accept_transition not_active
  on_active p id operation = elim (lookup id p.active) [
    | none ↦ (p, err (not_active p id))
    | some t ↦
        let (u, r) = operation t in
        let q = record p { active = insert id u p.active } in
        elim r [ Data.err e ↦ (q, err (task e)) | Data.ok x ↦ (accept_transition q x, ok x) ]
  ]

  -- The same without a transition.
  unfoldable pub on_active_quietly {ℓ} :
      {A : Type ℓ}
      → TaskPlane R
      → String
      → (AgentTask R → AgentTask R × Data.Result A)
      → TaskPlane R × PlaneResult A
  unfolding not_active
  on_active_quietly p id operation = elim (lookup id p.active) [
    | none ↦ (p, err (not_active p id))
    | some t ↦
        let (u, r) = operation t in
        let q = record p { active = insert id u p.active } in
        elim r [ Data.err e ↦ (q, err (task e)) | Data.ok x ↦ (q, ok x) ]
  ]

  unfoldable pub begin_planning :
      TaskPlane R → String → ℕ → TaskPlane R × PlaneResult TaskTransition
  unfolding on_active
  begin_planning p id now = on_active p id (λ t. Operations.begin_planning t now)

  unfoldable pub add_step : TaskPlane R → String → String → TaskPlane R × PlaneResult ℕ
  unfolding on_active_quietly
  add_step p id text = on_active_quietly p id (λ t. Operations.add_step t text)

  unfoldable pub mark_ready : TaskPlane R → String → ℕ → TaskPlane R × PlaneResult TaskTransition
  unfolding on_active
  mark_ready p id now = on_active p id (λ t. Operations.mark_ready t now)

  unfoldable pub wait_for :
      TaskPlane R
      → String
      → PendingCommitmentKind
      → String
      → ℕ
      → ℕ
      → TaskPlane R × PlaneResult TaskTransition
  unfolding on_active
  wait_for p id k summary ttl now = on_active p id (λ t. Operations.wait_for t k summary ttl now)

  unfoldable pub resume : TaskPlane R → String → ℕ → TaskPlane R × PlaneResult TaskTransition
  unfolding on_active
  resume p id now = on_active p id (λ t. Operations.resume t now)

  unfoldable pub begin_execution :
      TaskPlane R → String → ℕ → ℕ → TaskPlane R × PlaneResult TaskTransition
  unfolding on_active
  begin_execution p id index now = on_active p id (λ t. Operations.begin_execution t index now)

  unfoldable pub record_tool_evidence :
      TaskPlane R → String → ℕ → ToolExecutionEvidence R → TaskPlane R × PlaneResult (Unit {0})
  unfolding on_active_quietly
  record_tool_evidence p id observed evidence =
      on_active_quietly p id
        (λ t. Execution.record_observation t observed evidence.result evidence.verification)

  unfoldable pub finish_step : TaskPlane R → String → ℕ → TaskPlane R × PlaneResult TaskTransition
  unfolding on_active
  finish_step p id now = on_active p id (λ t. Execution.finish_step t now)

  unfoldable pub retry_current_step :
      TaskPlane R → String → ℕ → TaskPlane R × PlaneResult TaskTransition
  unfolding on_active
  retry_current_step p id now = on_active p id (λ t. Execution.retry_current_step t now)

  unfoldable pub replan : TaskPlane R → String → ℕ → TaskPlane R × PlaneResult TaskTransition
  unfolding on_active
  replan p id now = on_active p id (λ t. Execution.replan t now)

  unfoldable pub cancel :
      TaskPlane R → String → String → ℕ → TaskPlane R × PlaneResult TaskTransition
  unfolding on_active
  cancel p id reason now = on_active p id (λ t. Execution.cancel t reason now)

  unfoldable pub execution_snapshot : TaskPlane R → String → PlaneResult ToolCommitStateSnapshot
  unfolding find_task
  execution_snapshot p id = elim (find_task p id) [
    | none ↦ err (unknown_task id)
    | some t ↦ ok (record {
      observed_generation = t.generation;
      cancelled = is_cancelled_kind (kind t.state);
    })
  ]

  unfoldable pub commit_verification :
      TaskPlane R → String → ℕ → VerificationResult → ℕ → TaskPlane R × PlaneResult TaskTransition
  unfolding on_active not_active
  commit_verification p id expected result now = elim (lookup id p.active) [
    | none ↦ (p, err (not_active p id))
    | some t ↦
        if eqb t.generation expected
        then on_active p id (λ u. Execution.verify u expected result now)
        else (p, err (stale_commit expected t.generation))
  ]

  -- The loop of `expire` over the identifiers; an error ends it.
  unfoldable pub expire_ids : TaskPlane R → List String → ℕ → ℕ → TaskPlane R × PlaneResult ℕ
  unfolding accept_transition not_active
  expire_ids p [] now expired = (p, ok expired)
  expire_ids p (id ∷ ids) now expired = elim (lookup id p.active) [
    | none ↦ (p, err (not_active p id))
    | some t ↦
        let (u, r) = Operations.expire_if_needed t now in
        let q = record p { active = insert id u p.active } in
        elim r [
          | Data.err e ↦ (q, err (task e))
          | Data.ok none ↦ expire_ids q ids now expired
          | Data.ok (some x) ↦ expire_ids (accept_transition q x) ids now (expired + 1)
        ]
  ]

  unfoldable pub expire : TaskPlane R → ℕ → TaskPlane R × PlaneResult ℕ
  unfolding expire_ids sorted_keys
  expire p now = expire_ids p (sorted_keys p.active) now 0
