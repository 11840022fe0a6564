-- ===== src/Task/Operations.antt =====
-- crates/domain/src/task.rs: the operations of `AgentTask`. An operation returns the task as the
-- call leaves it, beside its result.
use aivtuber.Common.{
  ℕ, min, String, Bool, true, false, ◌||◌, Option, none, some, List, [], ◌∷◌, ◌++◌, length,
  get_elem?, set, ltb, leb, eqb, if◌then◌else◌,
}
use aivtuber.Common.Word.{saturating_add, checked_suc}
use aivtuber.Task.Data.{
  TaskStepState, pending, TaskStep, PendingCommitmentKind, approval, dependency, TaskOutcome,
  TaskState, kind, is_terminal_kind, TaskTransitionReason, TaskTransition, TaskLimits, AgentTask,
  TaskError, invalid_transition, plan_has_no_steps, step_limit_exceeded, step_out_of_range,
  step_not_pending, invalid_pending_ttl, generation_exhausted, non_monotonic_time, Result, ok, err,
  validate_text, validate_limits, max_task_request_bytes, max_task_step_bytes,
  max_task_reason_bytes,
}

abbrev pub is_pending : TaskStepState → Bool
is_pending pending = true
is_pending _ = false

abbrev pub is_executed : TaskStepState → Bool
is_executed TaskStepState.executed = true
is_executed _ = false

-- `steps[i].state = state`
unfoldable pub set_step : List TaskStep → ℕ → TaskStepState → List TaskStep
set_step steps i state = elim (get_elem? steps i) [
  | none ↦ steps
  | some step ↦ set steps i (record step { state = state })
]

-- `VecDeque::pop_front`
abbrev pub pop_front {ℓ} : {A : Type ℓ} → List A → List A
pop_front [] = []
pop_front (x ∷ xs) = xs

-- `AgentTask::new`
unfoldable pub new_task : {R : Type 0} → String → String → ℕ → TaskLimits → Result (AgentTask R)
new_task id requested created_at limits = elim (validate_limits limits) [
  | err e ↦ err e
  | ok l ↦ elim (validate_text "requested_outcome" requested max_task_request_bytes) [
    | some e ↦ err e
    | none ↦ ok (record {
      id = id;
      requested_outcome = requested;
      state = TaskState.accepted;
      steps = [];
      observations = [];
      limits = l;
      created_at_ms = created_at;
      updated_at_ms = created_at;
      expires_at_ms = saturating_add created_at l.max_lifetime_ms;
      generation = 0;
      retries = 0;
      replans = 0;
      outcome = none;
    })
  ]
]

abbrev pending_reason : PendingCommitmentKind → TaskTransitionReason
pending_reason approval = TaskTransitionReason.approval_pending
pending_reason dependency = TaskTransitionReason.dependency_pending

abbrev expiry_text : PendingCommitmentKind → String
expiry_text approval = "pending approval expired"
expiry_text dependency = "pending dependency expired"

module _ {R : Type 0} where
  unfoldable pub is_terminal : AgentTask R → Bool
  unfolding kind is_terminal_kind
  is_terminal t = is_terminal_kind (kind t.state)

  -- `invalid_transition`
  abbrev pub invalid : AgentTask R → String → TaskError
  invalid t action = invalid_transition (kind t.state) action

  -- `transition`
  unfoldable pub transition :
      AgentTask R → TaskState → TaskTransitionReason → ℕ → AgentTask R × Result TaskTransition
  transition t next reason now =
      if ltb now t.updated_at_ms then (t, err (non_monotonic_time t.updated_at_ms now)) else (
        record t { state = next; updated_at_ms = now },
        ok (record {
          task_id = t.id;
          from = kind t.state;
          to = kind next;
          reason = reason;
          at_ms = now;
          generation = t.generation;
          retries = t.retries;
          replans = t.replans;
        }),
      )

  -- `ensure_monotonic_time(now)?` in front of the rest of an operation.
  abbrev pub at_time {ℓ} :
      {A : Type ℓ} → AgentTask R → ℕ → AgentTask R × Result A → AgentTask R × Result A
  at_time t now rest =
      if ltb now t.updated_at_ms then (t, err (non_monotonic_time t.updated_at_ms now)) else rest

  unfoldable pub begin_planning : AgentTask R → ℕ → AgentTask R × Result TaskTransition
  unfolding transition
  begin_planning t now = elim t.state [
    | TaskState.accepted ↦ transition t TaskState.planning TaskTransitionReason.planning_started now
    | _ ↦ (t, err (invalid t "begin_planning"))
  ]

  unfoldable pub add_step : AgentTask R → String → AgentTask R × Result ℕ
  add_step t description = elim t.state [
    | TaskState.planning ↦
        if leb t.limits.max_steps (length t.steps)
        then (t, err step_limit_exceeded)
        else elim (validate_text "step_description" description max_task_step_bytes) [
          | some e ↦ (t, err e)
          | none ↦ (
            record t {
              steps =
                  t.steps
                  ++ record { index = length t.steps; description = description; state = pending }
                    ∷ [];
            },
            ok (length t.steps),
          )
        ]
    | _ ↦ (t, err (invalid t "add_step"))
  ]

  unfoldable pub mark_ready : AgentTask R → ℕ → AgentTask R × Result TaskTransition
  unfolding transition
  mark_ready t now = elim t.state [
    | TaskState.planning ↦
        if eqb (length t.steps) 0
        then (t, err plan_has_no_steps)
        else transition t TaskState.ready TaskTransitionReason.plan_ready now
    | _ ↦ (t, err (invalid t "mark_ready"))
  ]

  unfoldable pub wait_for :
      AgentTask R → PendingCommitmentKind → String → ℕ → ℕ → AgentTask R × Result TaskTransition
  unfolding transition
  wait_for t commitment summary ttl now = elim t.state [
    | TaskState.ready ↦
        if eqb ttl 0 || ltb t.limits.max_pending_ttl_ms ttl
        then (t, err invalid_pending_ttl)
        else elim (validate_text "pending_summary" summary max_task_reason_bytes) [
          | some e ↦ (t, err e)
          | none ↦
              transition t
                (TaskState.waiting (record {
                  kind = commitment;
                  summary = summary;
                  expires_at_ms = min (saturating_add now ttl) t.expires_at_ms;
                }))
                (pending_reason commitment) now
        ]
    | _ ↦ (t, err (invalid t "wait_for"))
  ]

  -- The tail of the two expiries: a new generation, the outcome, and the transition.
  abbrev expire :
      AgentTask R
      → ℕ
      → TaskOutcome
      → TaskState
      → TaskTransitionReason
      → AgentTask R × Result (Option TaskTransition)
  unfolding transition
  expire t now outcome next reason = elim (checked_suc t.generation) [
    | none ↦ (t, err generation_exhausted)
    | some g ↦
        let (u, r) =
          transition (record t { generation = g; outcome = some outcome }) next reason now in
        (u, elim r [ err e ↦ err e | ok x ↦ ok (some x) ])
  ]

  unfoldable pub expire_if_needed : AgentTask R → ℕ → AgentTask R × Result (Option TaskTransition)
  unfolding expire is_terminal
  expire_if_needed t now =
      if is_terminal t
      then (t, ok none)
      else at_time t now (
          if leb t.expires_at_ms now
          then expire t now TaskOutcome.expired TaskState.expired TaskTransitionReason.task_expired
          else elim t.state [
            | TaskState.waiting c ↦
                if leb c.expires_at_ms now
                then expire t now (TaskOutcome.not_verified (expiry_text c.kind))
                    TaskState.not_verified TaskTransitionReason.commitment_expired
                else (t, ok none)
            | _ ↦ (t, ok none)
          ])

  unfoldable pub resume : AgentTask R → ℕ → AgentTask R × Result TaskTransition
  unfolding expire_if_needed transition
  resume t now = elim t.state [
    | TaskState.waiting c ↦
        let (u, r) = expire_if_needed t now in
        elim r [
          | err e ↦ (u, err e)
          | ok (some x) ↦ (u, ok x)
          | ok none ↦ transition u TaskState.ready TaskTransitionReason.commitment_satisfied now
        ]
    | _ ↦ (t, err (invalid t "resume"))
  ]

  unfoldable pub begin_execution : AgentTask R → ℕ → ℕ → AgentTask R × Result TaskTransition
  unfolding transition
  begin_execution t step_index now = elim t.state [
    | TaskState.ready ↦ at_time t now (elim (get_elem? t.steps step_index) [
      | none ↦ (t, err (step_out_of_range step_index))
      | some step ↦
          if is_pending step.state
          then elim (checked_suc t.generation) [
            | none ↦ (t, err generation_exhausted)
            | some g ↦
                transition
                  (record t {
                    generation = g;
                    steps = set_step t.steps step_index TaskStepState.executing;
                  })
                  (TaskState.executing step_index g) TaskTransitionReason.step_started now
          ]
          else (t, err (step_not_pending step_index))
    ])
    | _ ↦ (t, err (invalid t "begin_execution"))
  ]
