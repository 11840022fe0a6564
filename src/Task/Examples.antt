-- ===== src/Task/Examples.antt =====
-- crates/domain/src/task.rs: the task of its unit tests, a run of it, and the theorems of the
-- lifecycle there.
use aivtuber.Common.{
  ◌+◌, ℕ, ◌≡◌, ◌≤◌, ◌<◌, ◌⊎◌, ◌↔◌, refl, true, false, String, none, some, List, [], ◌∷◌, arith,
}
use aivtuber.Common.Word.{saturating_add, checked_suc, u64_max}
use aivtuber.Task.Data
use aivtuber.Task.Data.{
  PendingCommitment, PendingCommitmentKind, AgentTask, TaskState, TaskOutcome, TaskError,
  TaskStepState, TaskVerificationOutcome, VerificationResult, ToolVerificationOutcome,
  default_limits, ok, validate_limits, kind,
}
use aivtuber.Task.Operations
use aivtuber.Task.Operations.{new_task, is_terminal}
use aivtuber.Task.Calls.{Call, call, calls, operations}
use aivtuber.Task.Invariant.{IsValid, Finished}
use aivtuber.Task.Lifecycle.{
  calls_new_task-IsValid, completed-Finished, terminal_absorbs, call-monotone, failed_call_atomic,
  exhausted_call_leaves,
}
use aivtuber.Task.Guards.{
  IsWithin, IsEdge, IsEnd, IsRefused, validate_limits_iff, late_report-IsRefused, call-IsEdge,
  resume_iff,
}

-- Everything that a call computes with.
program : Unit {0}
unfolding operations calls new_task validate_limits Data.validate_text Data.is_blank
    Data.is_white_space saturating_add checked_suc Operations.set_step Operations.transition kind
    Data.is_terminal_kind
program = tt

abbrev created : AgentTask String
created = record {
  id = "task:1";
  requested_outcome = "compare the lights";
  state = TaskState.accepted;
  steps = [];
  observations = [];
  limits = default_limits;
  created_at_ms = 100;
  updated_at_ms = 100;
  expires_at_ms = 900100;
  generation = 0;
  retries = 0;
  replans = 0;
  outcome = none;
}

created_lem : new_task {R = String} "task:1" "compare the lights" 100 default_limits ≡ ok created
unfolding program
created_lem = refl

abbrev to_execution : List (Call String)
to_execution =
    Call.begin_planning 110
    ∷ Call.add_step "look"
    ∷ Call.mark_ready 120
    ∷ Call.begin_execution 0 130
    ∷ []

abbrev verdict : VerificationResult
verdict = record { outcome = TaskVerificationOutcome.verified; reason = none }

abbrev to_completion : List (Call String)
to_completion =
    Call.begin_planning 110
    ∷ Call.add_step "look"
    ∷ Call.mark_ready 120
    ∷ Call.begin_execution 0 130
    ∷ Call.record_observation 1 "on" ToolVerificationOutcome.verified
    ∷ Call.finish_step 140
    ∷ Call.verify 1 verdict 150
    ∷ []

abbrev running : AgentTask String
running = calls created to_execution

running_state : running.state ≡ TaskState.executing 0 1
unfolding program
running_state = refl

abbrev done : AgentTask String
done = calls created to_completion

done_state : done.state ≡ TaskState.completed
unfolding program
done_state = refl

calls_new_task-IsValid_example : IsValid done
calls_new_task-IsValid_example =
    calls_new_task-IsValid "task:1" "compare the lights" 100 default_limits to_completion
      created_lem

completed-Finished_example : Finished done.steps × (done.outcome ≡ some TaskOutcome.completed)
completed-Finished_example =
    completed-Finished "task:1" "compare the lights" 100 default_limits to_completion created_lem
      done_state

done_terminal : is_terminal done ≡ true
unfolding program is_terminal
done_terminal = refl

terminal_absorbs_example : (call done (Call.cancel "too late" 160)).0 ≡ done
terminal_absorbs_example = terminal_absorbs done (Call.cancel "too late" 160) done_terminal

call-monotone_example :
    (running.updated_at_ms ≤ (call running (Call.retry_current_step 140)).0.updated_at_ms)
    × (running.generation ≤ (call running (Call.retry_current_step 140)).0.generation)
call-monotone_example = call-monotone running (Call.retry_current_step 140)

-- A transition before the last update.
too_early : (call running (Call.finish_step 5)).1 ≡ some (Data.non_monotonic_time 130 5)
unfolding program
too_early = refl

failed_call_atomic_example : (call running (Call.finish_step 5)).0 ≡ running
failed_call_atomic_example = failed_call_atomic running (Call.finish_step 5) too_early (λ e. cc)

abbrev worn : AgentTask String
worn = record running {
  state = TaskState.executing 0 1;
  retries = 0;
  limits = default_limits;
  updated_at_ms = 130;
  generation = u64_max;
}

worn_fails : (call worn (Call.retry_current_step 140)).1 ≡ some Data.generation_exhausted
unfolding program
worn_fails = refl

exhausted_call_leaves_example :
    (u64_max ≤ worn.generation)
    × (((call worn (Call.retry_current_step 140)).0 ≡ worn)
        ⊎ ((call worn (Call.retry_current_step 140)).0 ≡ record worn { retries = worn.retries + 1 })
        ⊎ ((call worn (Call.retry_current_step 140)).0
            ≡ record worn { replans = worn.replans + 1 }))
exhausted_call_leaves_example = exhausted_call_leaves worn (Call.retry_current_step 140) worn_fails

validate_limits_iff_example :
    (validate_limits default_limits ≡ ok default_limits)
    ↔ (IsWithin default_limits × (default_limits ≡ default_limits))
validate_limits_iff_example = validate_limits_iff default_limits default_limits

retried : running.generation < (call running (Call.retry_current_step 140)).0.generation
unfolding program
retried = omega arith

abbrev late : AgentTask String
late = calls (call running (Call.retry_current_step 140)).0 (Call.begin_execution 0 150 ∷ [])

late_report-IsRefused_example :
    ((r : String) (v : ToolVerificationOutcome)
      → IsRefused late (Call.record_observation running.generation r v))
    × ((v : VerificationResult) (now : ℕ) → IsRefused late (Call.verify running.generation v now))
late_report-IsRefused_example =
    late_report-IsRefused running
      (calls_new_task-IsValid "task:1" "compare the lights" 100 default_limits to_execution
        created_lem)
      (Call.retry_current_step 140) (Call.begin_execution 0 150 ∷ []) retried

call-IsEdge_example :
    (kind (call running (Call.finish_step 140)).0.state ≡ kind running.state)
    ⊎ IsEdge (kind running.state) (kind (call running (Call.finish_step 140)).0.state)
    ⊎ ((is_terminal running ≡ false) × IsEnd (kind (call running (Call.finish_step 140)).0.state))
call-IsEdge_example = call-IsEdge running (Call.finish_step 140)

abbrev pausing : AgentTask String
pausing = calls created (
    Call.begin_planning 110
    ∷ Call.add_step "look"
    ∷ Call.mark_ready 120
    ∷ Call.wait_for PendingCommitmentKind.approval "may I look" 50 130
    ∷ [])

resume_iff_example :
    (((call pausing (Call.resume 150)).1 ≡ none)
      × ((call pausing (Call.resume 150)).0.state ≡ TaskState.ready))
    ↔ ((c : PendingCommitment) × (pausing.state ≡ TaskState.waiting c)
        × (pausing.updated_at_ms ≤ 150)
        × (150 < c.expires_at_ms)
        × (150 < pausing.expires_at_ms))
resume_iff_example = resume_iff pausing 150
