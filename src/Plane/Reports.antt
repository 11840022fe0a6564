-- ===== src/Plane/Reports.antt =====
-- crates/domain/src/task.rs: what an operation of a task tells the task plane, which files the task
-- by the identifier and the end of the reported transition.
use aivtuber.Common.{ℕ, ◌≡◌, String, false, Option, none, some, arith}
use aivtuber.Common.Word.{checked_suc}
use aivtuber.Task.Data.{
  AgentTask, TaskTransition, PendingCommitmentKind, VerificationResult, Result, ok, err, kind,
  ToolVerificationOutcome,
}
use aivtuber.Task.Operations.{
  is_terminal, begin_planning, add_step, mark_ready, wait_for, resume, begin_execution,
  expire_if_needed,
}
use aivtuber.Task.Execution.{
  record_observation, finish_step, retry_current_step, replan, verify, cancel,
}
use aivtuber.Task.Invariant.{IsValid}
use aivtuber.Task.Invariant

module _ {R : Type 0} where
  -- A transition names the task and the state that it reached.
  abbrev pub Names : AgentTask R → AgentTask R → TaskTransition → Type 0
  Names t u x = (u.id ≡ t.id) × (x.task_id ≡ t.id) × (x.to ≡ kind u.state)

  -- Without a transition a task has not ended.
  abbrev pub Stays : AgentTask R → AgentTask R → Type 0
  Stays t u = (u.id ≡ t.id) × (is_terminal t ≡ false → is_terminal u ≡ false)

  abbrev pub Reports : AgentTask R → AgentTask R → Result TaskTransition → Type 0
  Reports t u (err e) = Stays t u
  Reports t u (ok x) = Names t u x

  abbrev pub MayReport : AgentTask R → AgentTask R → Result (Option TaskTransition) → Type 0
  MayReport t u (err e) = Stays t u
  MayReport t u (ok none) = Stays t u
  MayReport t u (ok (some x)) = Names t u x

  pub record Fits (t : AgentTask R) (o : AgentTask R × Result TaskTransition) : Type 0 where
    pub valid : IsValid o.0
    pub reports : Reports t o.0 o.1

  module _ (t : AgentTask R) (h : IsValid t) where
    pub begin_planning-Fits : (now : ℕ) → Fits t (begin_planning t now)
    unfolding begin_planning is_terminal
    begin_planning-Fits now = record {
      valid = Invariant.begin_planning-IsValid t h now;
      reports = ground arith;
    }

    pub mark_ready-Fits : (now : ℕ) → Fits t (mark_ready t now)
    unfolding mark_ready is_terminal
    mark_ready-Fits now = record {
      valid = Invariant.mark_ready-IsValid t h now;
      reports = ground arith;
    }

    pub wait_for-Fits :
        (k : PendingCommitmentKind) (text : String) (ttl now : ℕ)
        → Fits t (wait_for t k text ttl now)
    unfolding wait_for is_terminal
    wait_for-Fits k text ttl now = record {
      valid = Invariant.wait_for-IsValid t h k text ttl now;
      reports = ground arith;
    }

    pub resume-Fits : (now : ℕ) → Fits t (resume t now)
    unfolding resume is_terminal checked_suc
    resume-Fits now = record { valid = Invariant.resume-IsValid t h now; reports = ground arith }

    pub begin_execution-Fits : (i now : ℕ) → Fits t (begin_execution t i now)
    unfolding begin_execution is_terminal
    begin_execution-Fits i now = record {
      valid = Invariant.begin_execution-IsValid t h i now;
      reports = ground arith;
    }

    pub finish_step-Fits : (now : ℕ) → Fits t (finish_step t now)
    unfolding finish_step is_terminal
    finish_step-Fits now = record {
      valid = Invariant.finish_step-IsValid t h now;
      reports = ground arith;
    }

    pub retry_current_step-Fits : (now : ℕ) → Fits t (retry_current_step t now)
    unfolding retry_current_step is_terminal
    retry_current_step-Fits now = record {
      valid = Invariant.retry_current_step-IsValid t h now;
      reports = ground arith;
    }

    pub replan-Fits : (now : ℕ) → Fits t (replan t now)
    unfolding replan is_terminal
    replan-Fits now = record { valid = Invariant.replan-IsValid t h now; reports = ground arith }

    pub verify-Fits : (g : ℕ) (v : VerificationResult) (now : ℕ) → Fits t (verify t g v now)
    unfolding verify is_terminal
    verify-Fits g v now = record {
      valid = Invariant.verify-IsValid t h g v now;
      reports = ground arith;
    }

    pub cancel-Fits : (text : String) (now : ℕ) → Fits t (cancel t text now)
    unfolding cancel is_terminal
    cancel-Fits text now = record {
      valid = Invariant.cancel-IsValid t h text now;
      reports = ground arith;
    }

  -- The operations without a transition.
  pub add_step-Stays : (t : AgentTask R) (text : String) → Stays t (add_step t text).0
  unfolding add_step is_terminal
  add_step-Stays t text = ground arith

  pub record_observation-Stays :
      (t : AgentTask R) (g : ℕ) (r : R) (v : ToolVerificationOutcome)
      → Stays t (record_observation t g r v).0
  unfolding record_observation is_terminal
  record_observation-Stays t g r v = ground arith

  pub expire_if_needed-MayReport :
      (t : AgentTask R) (now : ℕ)
      → MayReport t (expire_if_needed t now).0 (expire_if_needed t now).1
  unfolding expire_if_needed is_terminal
  expire_if_needed-MayReport t now = ground arith
