-- ===== src/Task/Guards.antt =====
-- crates/domain/src/task.rs: the guards of the operations: generations, expiry, limits and the
-- edges between the kinds of state.
use aivtuber.Common.{ℕ, ◌≤◌, ◌<◌, ◌≡◌, ◌≢◌, ◌⊎◌, ◌↔◌, false, none, List, [], ◌∷◌, arith}
use aivtuber.Common.Word.{checked_suc}
use aivtuber.Task.Data.{
  TaskState, TaskStateKind, PendingCommitment, TaskLimits, AgentTask, VerificationResult,
  ToolVerificationOutcome, ok, validate_limits, kind, max_task_steps_hard,
  max_task_observations_hard, max_task_retries_hard, max_task_replans_hard,
  max_task_lifetime_ms_hard, max_task_pending_ttl_ms_hard,
}
use aivtuber.Task.Operations.{is_terminal}
use aivtuber.Task.Calls.{Call, call, calls, operations}
use aivtuber.Task.Invariant.{IsValid}
use aivtuber.Task.Lifecycle.{call-IsValid, call-monotone, calls-IsValid}

-- The limits that `TaskLimits::validate` admits.
pub record IsWithin (l : TaskLimits) : Type 0 where
  pub steps : (0 < l.max_steps) × (l.max_steps ≤ max_task_steps_hard)
  pub observations : (0 < l.max_observations) × (l.max_observations ≤ max_task_observations_hard)
  pub retries : l.max_retries ≤ max_task_retries_hard
  pub replans : l.max_replans ≤ max_task_replans_hard
  pub lifetime : (0 < l.max_lifetime_ms) × (l.max_lifetime_ms ≤ max_task_lifetime_ms_hard)
  pub pending :
      (0 < l.max_pending_ttl_ms)
      × (l.max_pending_ttl_ms ≤ max_task_pending_ttl_ms_hard)
      × (l.max_pending_ttl_ms ≤ l.max_lifetime_ms)

-- Limits are accepted exactly if each of them is within its hard bound, the steps, the observations
-- and the two times are positive, and a pending commitment does not outlive the task; whatever
-- limits come out are the ones that went in.
pub validate_limits_iff :
    (l accepted : TaskLimits) → (validate_limits l ≡ ok accepted) ↔ (IsWithin l × (accepted ≡ l))
unfolding validate_limits
validate_limits_iff l accepted = (
  λ e. (
    record {
      steps = ground arith;
      observations = ground arith;
      retries = ground arith;
      replans = ground arith;
      lifetime = ground arith;
      pending = ground arith;
    },
    ground arith,
  ),
  λ (h, e). ground (arith, h.steps, h.observations, h.retries, h.replans, h.lifetime, h.pending),
)

-- The edges between kinds of state.
abbrev pub IsEdge : TaskStateKind → TaskStateKind → Type 0
IsEdge TaskStateKind.accepted k = k ≡ TaskStateKind.planning
IsEdge TaskStateKind.planning k = k ≡ TaskStateKind.ready
IsEdge TaskStateKind.ready k =
    (k ≡ TaskStateKind.waiting_approval)
    ⊎ (k ≡ TaskStateKind.waiting_dependency)
    ⊎ (k ≡ TaskStateKind.executing)
    ⊎ (k ≡ TaskStateKind.planning)
IsEdge TaskStateKind.waiting_approval k =
    (k ≡ TaskStateKind.ready) ⊎ (k ≡ TaskStateKind.not_verified)
IsEdge TaskStateKind.waiting_dependency k =
    (k ≡ TaskStateKind.ready) ⊎ (k ≡ TaskStateKind.not_verified)
IsEdge TaskStateKind.executing k = (k ≡ TaskStateKind.ready) ⊎ (k ≡ TaskStateKind.verifying)
IsEdge TaskStateKind.verifying k =
    (k ≡ TaskStateKind.planning)
    ⊎ (k ≡ TaskStateKind.completed)
    ⊎ (k ≡ TaskStateKind.failed)
    ⊎ (k ≡ TaskStateKind.not_verified)
IsEdge _ k = ⊥

-- The ends that every state that is not terminal can reach at once.
abbrev pub IsEnd : TaskStateKind → Type 0
IsEnd k = (k ≡ TaskStateKind.cancelled) ⊎ (k ≡ TaskStateKind.expired)

module _ {R : Type 0} where
  calls-generation : (t : AgentTask R) (cs : List (Call R)) → t.generation ≤ (calls t cs).generation
  unfolding calls
  calls-generation t [] = omega arith
  calls-generation t (c ∷ cs) =
      omega (arith, (call-monotone t c).1, calls-generation (call t c).0 cs)

  -- What a refused call leaves.
  abbrev pub IsRefused : AgentTask R → Call R → Type 0
  IsRefused t c = ((call t c).0 ≡ t) × ((call t c).1 ≢ none)

  older-IsRefused :
      (t : AgentTask R) (g : ℕ)
      → IsValid t
      → g < t.generation
      → ((r : R) (v : ToolVerificationOutcome) → IsRefused t (Call.record_observation g r v))
        × ((v : VerificationResult) (now : ℕ) → IsRefused t (Call.verify g v now))
  unfolding operations
  older-IsRefused t g h lt = let fits = h.fits in (λ r v. ground arith, λ v now. ground arith)

  module _ (t : AgentTask R) (valid : IsValid t) (retry : Call R) (cs : List (Call R))
      (renewed : t.generation < (call t retry).0.generation) where
    -- Once a call has moved a valid task to a new generation, as a retry, a replan, a cancellation
    -- or an expiry does, then whatever is called afterwards, a result or a verdict of the former
    -- generation is refused with an error and changes nothing.
    pub late_report-IsRefused :
        let u = calls (call t retry).0 cs in
        ((r : R) (v : ToolVerificationOutcome)
          → IsRefused u (Call.record_observation t.generation r v))
        × ((v : VerificationResult) (now : ℕ) → IsRefused u (Call.verify t.generation v now))
    late_report-IsRefused =
        let u = (call t retry).0 in
        older-IsRefused (calls u cs) t.generation (calls-IsValid u cs (call-IsValid t retry valid))
          (omega (arith, renewed, calls-generation u cs))

  -- A call leaves the kind of the state, follows an edge of the lifecycle, or ends a task that had
  -- not ended by cancellation or expiry.
  pub call-IsEdge :
      (t : AgentTask R) (c : Call R)
      → (kind (call t c).0.state ≡ kind t.state)
        ⊎ IsEdge (kind t.state) (kind (call t c).0.state)
        ⊎ ((is_terminal t ≡ false) × IsEnd (kind (call t c).0.state))
  unfolding operations kind
  call-IsEdge t (Call.begin_planning now) = ground arith
  call-IsEdge t _ = ground arith

  -- A waiting task gets back to work exactly in time: a call of `resume` succeeds and makes the task
  -- ready exactly if the task waits, its time has not gone back, and neither the commitment nor the
  -- task itself has expired by then.
  pub resume_iff :
      (t : AgentTask R) (now : ℕ)
      → (((call t (Call.resume now)).1 ≡ none)
          × ((call t (Call.resume now)).0.state ≡ TaskState.ready))
        ↔ ((c : PendingCommitment) × (t.state ≡ TaskState.waiting c)
            × (t.updated_at_ms ≤ now)
            × (now < c.expires_at_ms)
            × (now < t.expires_at_ms))
  unfolding operations checked_suc
  resume_iff t now = (λ (h, r). ground arith, λ (c, w, later, live, due). ground arith)
