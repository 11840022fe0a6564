-- ===== src/Task/Execution.antt =====
-- crates/domain/src/task.rs: the operations of `AgentTask` while a step runs, and the ends of a
-- task.
use aivtuber.Common.{
  ℕ, ◌+◌, String, Bool, true, false, Option, none, some, [], ◌∷◌, ◌++◌, length, all, leb, eqb,
  if◌then◌else◌,
}
use aivtuber.Common.Word.{checked_suc}
use aivtuber.Task.Data.{
  TaskStepState, TaskStep, VerificationResult, TaskVerificationOutcome, TaskOutcome, TaskState,
  TaskTransitionReason, TaskTransition, ToolVerificationOutcome, AgentTask, retry_limit_exceeded,
  replan_limit_exceeded, stale_generation, generation_exhausted, Result, ok, err, validate_text,
  max_task_reason_bytes,
}
use aivtuber.Task.Operations.{
  is_executed, set_step, pop_front, is_terminal, invalid, transition, at_time,
}

abbrev pub unwrap_reason : Option String → String
unwrap_reason none = "task verification did not establish completion"
unwrap_reason (some r) = r

-- The outcome, state and reason that `verify` records.
abbrev pub verdict_outcome : TaskVerificationOutcome → Option String → TaskOutcome
verdict_outcome TaskVerificationOutcome.verified r = TaskOutcome.completed
verdict_outcome TaskVerificationOutcome.failed r = TaskOutcome.failed (unwrap_reason r)
verdict_outcome TaskVerificationOutcome.not_verified r = TaskOutcome.not_verified (unwrap_reason r)
verdict_outcome TaskVerificationOutcome.cancelled r = TaskOutcome.cancelled (unwrap_reason r)
verdict_outcome TaskVerificationOutcome.stale r = TaskOutcome.not_verified (unwrap_reason r)

abbrev pub verdict_state : TaskVerificationOutcome → TaskState
verdict_state TaskVerificationOutcome.verified = TaskState.completed
verdict_state TaskVerificationOutcome.failed = TaskState.failed
verdict_state TaskVerificationOutcome.not_verified = TaskState.not_verified
verdict_state TaskVerificationOutcome.cancelled = TaskState.cancelled
verdict_state TaskVerificationOutcome.stale = TaskState.not_verified

abbrev pub verdict_reason : TaskVerificationOutcome → TaskTransitionReason
verdict_reason TaskVerificationOutcome.verified = TaskTransitionReason.verification_passed
verdict_reason TaskVerificationOutcome.failed = TaskTransitionReason.verification_failed
verdict_reason TaskVerificationOutcome.not_verified = TaskTransitionReason.verification_not_proven
verdict_reason TaskVerificationOutcome.cancelled = TaskTransitionReason.verification_cancelled
verdict_reason TaskVerificationOutcome.stale = TaskTransitionReason.verification_stale

abbrev pub may_replan : TaskState → Bool
may_replan TaskState.ready = true
may_replan (TaskState.verifying g) = true
may_replan _ = false

module _ {R : Type 0} where
  unfoldable pub record_observation :
      AgentTask R → ℕ → R → ToolVerificationOutcome → AgentTask R × Result (Unit {0})
  record_observation t observed result verification = elim t.state [
    | TaskState.executing step_index expected ↦
        if eqb observed expected
        then (
          record t {
            observations =
                (if eqb (length t.observations) t.limits.max_observations
                  then pop_front t.observations
                  else t.observations)
                ++ record {
                  step_index = step_index;
                  generation = observed;
                  result = result;
                  verification = verification;
                }
                  ∷ [];
          },
          ok tt,
        )
        else (t, err (stale_generation expected observed))
    | _ ↦ (t, err (invalid t "record_observation"))
  ]

  -- `self.steps[step_index]` panics at a slot that is not there; `set_step` changes nothing.
  unfoldable pub finish_step : AgentTask R → ℕ → AgentTask R × Result TaskTransition
  unfolding transition
  finish_step t now = elim t.state [
    | TaskState.executing step_index generation ↦ at_time t now (
        let steps = set_step t.steps step_index TaskStepState.executed in
        let u = record t { steps = steps } in
        if all (λ (step : TaskStep). is_executed step.state) steps
        then transition u (TaskState.verifying generation) TaskTransitionReason.step_finished now
        else transition u TaskState.ready TaskTransitionReason.step_finished now)
    | _ ↦ (t, err (invalid t "finish_step"))
  ]

  -- The counter of retries is written before the generation is checked.
  unfoldable pub retry_current_step : AgentTask R → ℕ → AgentTask R × Result TaskTransition
  unfolding transition
  retry_current_step t now = elim t.state [
    | TaskState.executing step_index _ ↦
        if leb t.limits.max_retries t.retries
        then (t, err retry_limit_exceeded)
        else at_time t now (
            let u = record t { retries = t.retries + 1 } in
            elim (checked_suc t.generation) [
              | none ↦ (u, err generation_exhausted)
              | some g ↦
                  transition
                    (record u {
                      generation = g;
                      steps = set_step t.steps step_index TaskStepState.pending;
                    })
                    TaskState.ready TaskTransitionReason.retry_scheduled now
            ])
    | _ ↦ (t, err (invalid t "retry_current_step"))
  ]

  -- The counter of replans is written before the generation is checked.
  unfoldable pub replan : AgentTask R → ℕ → AgentTask R × Result TaskTransition
  unfolding transition
  replan t now =
      if may_replan t.state
      then if leb t.limits.max_replans t.replans
        then (t, err replan_limit_exceeded)
        else at_time t now (
            let u = record t { replans = t.replans + 1 } in
            elim (checked_suc t.generation) [
              | none ↦ (u, err generation_exhausted)
              | some g ↦
                  transition (record u { generation = g; steps = []; observations = [] })
                    TaskState.planning TaskTransitionReason.replan_started now
            ])
      else (t, err (invalid t "replan"))

  unfoldable pub verify :
      AgentTask R → ℕ → VerificationResult → ℕ → AgentTask R × Result TaskTransition
  unfolding transition
  verify t observed result now = elim t.state [
    | TaskState.verifying expected ↦
        if eqb observed expected
        then at_time t now (
            transition (record t { outcome = some (verdict_outcome result.outcome result.reason) })
              (verdict_state result.outcome) (verdict_reason result.outcome) now)
        else (t, err (stale_generation expected observed))
    | _ ↦ (t, err (invalid t "verify"))
  ]

  unfoldable pub cancel : AgentTask R → String → ℕ → AgentTask R × Result TaskTransition
  unfolding transition is_terminal
  cancel t reason now =
      if is_terminal t
      then (t, err (invalid t "cancel"))
      else elim (validate_text "cancel_reason" reason max_task_reason_bytes) [
        | some e ↦ (t, err e)
        | none ↦ at_time t now (elim (checked_suc t.generation) [
          | none ↦ (t, err generation_exhausted)
          | some g ↦
              transition
                (record t { generation = g; outcome = some (TaskOutcome.cancelled reason) })
                TaskState.cancelled TaskTransitionReason.cancelled now
        ])
      ]
