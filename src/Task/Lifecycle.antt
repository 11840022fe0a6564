-- ===== src/Task/Lifecycle.antt =====
-- crates/domain/src/task.rs: what every sequence of calls keeps, and what a call may do to a task.
use aivtuber.Common.{ℕ, ◌+◌, ◌≤◌, ◌≡◌, ◌≢◌, ◌⊎◌, true, String, some, List, [], ◌∷◌, arith}
use aivtuber.Common.Word.{checked_suc, u64_max}
use aivtuber.Task.Data.{
  TaskState, TaskOutcome, TaskLimits, AgentTask, TaskError, generation_exhausted, ok,
  validate_limits, validate_text,
}
use aivtuber.Task.Operations.{is_terminal, new_task}
use aivtuber.Task.Calls.{Call, call, calls, operations}
use aivtuber.Task.Invariant
use aivtuber.Task.Invariant.{IsValid, Finished}

module _ {R : Type 0} where
  -- A call keeps the invariant, whether it succeeds or fails.
  pub call-IsValid : (t : AgentTask R) (c : Call R) → IsValid t → IsValid (call t c).0
  unfolding call
  call-IsValid t (Call.begin_planning now) h = Invariant.begin_planning-IsValid t h now
  call-IsValid t (Call.add_step text) h = Invariant.add_step-IsValid t h text
  call-IsValid t (Call.mark_ready now) h = Invariant.mark_ready-IsValid t h now
  call-IsValid t (Call.wait_for k text ttl now) h = Invariant.wait_for-IsValid t h k text ttl now
  call-IsValid t (Call.resume now) h = Invariant.resume-IsValid t h now
  call-IsValid t (Call.begin_execution i now) h = Invariant.begin_execution-IsValid t h i now
  call-IsValid t (Call.record_observation g r v) h = Invariant.record_observation-IsValid t h g r v
  call-IsValid t (Call.finish_step now) h = Invariant.finish_step-IsValid t h now
  call-IsValid t (Call.retry_current_step now) h = Invariant.retry_current_step-IsValid t h now
  call-IsValid t (Call.replan now) h = Invariant.replan-IsValid t h now
  call-IsValid t (Call.verify g v now) h = Invariant.verify-IsValid t h g v now
  call-IsValid t (Call.cancel text now) h = Invariant.cancel-IsValid t h text now
  call-IsValid t (Call.expire_if_needed now) h = Invariant.expire_if_needed-IsValid t h now

  pub new_task-IsValid :
      (id text : String) (at_ms : ℕ) (l : TaskLimits) {t : AgentTask R}
      → new_task id text at_ms l ≡ ok t
      → IsValid t
  unfolding new_task validate_limits
  new_task-IsValid id text at_ms l e = let none_yet = Invariant.Idle-nil in ground arith

  pub calls-IsValid : (t : AgentTask R) (cs : List (Call R)) → IsValid t → IsValid (calls t cs)
  unfolding calls
  calls-IsValid t [] h = h
  calls-IsValid t (c ∷ cs) h = calls-IsValid (call t c).0 cs (call-IsValid t c h)

  module _ (id text : String) (at_ms : ℕ) (l : TaskLimits) (cs : List (Call R)) {t : AgentTask R}
      (created : new_task id text at_ms l ≡ ok t) where
    -- After any sequence of calls on a new task, failed ones included: the plan, the observations,
    -- the retries and the replans are within the limits; the task has not been updated before its
    -- creation; while the task executes, the step that its state names runs and no other; at most one
    -- step is left running in a task that was cancelled or has expired, and none runs in any other
    -- state; and the outcome is the one of the state.
    pub calls_new_task-IsValid : IsValid (calls t cs)
    calls_new_task-IsValid = calls-IsValid t cs (new_task-IsValid id text at_ms l created)

    -- A task that completes has executed every step of a plan with at least one step, and its
    -- outcome is completion.
    pub completed-Finished :
        (calls t cs).state ≡ TaskState.completed
        → Finished (calls t cs).steps × ((calls t cs).outcome ≡ some TaskOutcome.completed)
    completed-Finished e = let v = calls_new_task-IsValid in ground (arith, v)

  -- In a terminal state no call changes the task.
  pub terminal_absorbs : (t : AgentTask R) (c : Call R) → is_terminal t ≡ true → (call t c).0 ≡ t
  unfolding operations
  terminal_absorbs t (Call.begin_planning now) h = ground arith
  terminal_absorbs t _ h = ground arith

  -- Logical time and the generation never go back.
  pub call-monotone :
      (t : AgentTask R) (c : Call R)
      → (t.updated_at_ms ≤ (call t c).0.updated_at_ms) × (t.generation ≤ (call t c).0.generation)
  unfolding operations checked_suc
  call-monotone t (Call.begin_planning now) = ground arith
  call-monotone t _ = ground arith

  -- A call that fails leaves the task as it was, unless it fails because the generations are used
  -- up.
  pub failed_call_atomic :
      (t : AgentTask R) (c : Call R) {e : TaskError}
      → (call t c).1 ≡ some e
      → e ≢ generation_exhausted
      → (call t c).0 ≡ t
  unfolding operations checked_suc
  failed_call_atomic t (Call.begin_planning now) h ne = ground arith
  failed_call_atomic t _ h ne = ground arith

  -- A call that fails because the generations are used up finds the generation at the largest word,
  -- and leaves the task as it was, but for a retry or a replan that it has counted.
  pub exhausted_call_leaves :
      (t : AgentTask R) (c : Call R)
      → (call t c).1 ≡ some generation_exhausted
      → (u64_max ≤ t.generation)
        × (((call t c).0 ≡ t)
            ⊎ ((call t c).0 ≡ record t { retries = t.retries + 1 })
            ⊎ ((call t c).0 ≡ record t { replans = t.replans + 1 }))
  unfolding operations checked_suc validate_text
  exhausted_call_leaves t (Call.begin_planning now) h = ground arith
  exhausted_call_leaves t _ h = ground arith
