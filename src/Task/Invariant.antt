-- ===== src/Task/Invariant.antt =====
-- What holds of an agent task between two calls.
use aivtuber.Common.{
  ℕ, zero, suc, ◌-◌, ◌≤◌, ◌<◌, ◌≡◌, ◌≢◌, refl, inl, inr, subst, true, String, Option, none, some,
  List, [], ◌∷◌, ◌++◌, length, get_elem?, set, length-append, length-set, get_elem?-lt,
  get_elem?-set_self, all, Option-cases, Bool-cases, eqb, arith,
}
use aivtuber.Common.Slots.{AllAt, AllAt-push, get_elem?-set}
use aivtuber.Task.Data.{
  TaskStepState, pending, executing, executed, VerificationResult, ToolVerificationOutcome,
  TaskStep, PendingCommitmentKind, TaskState, TaskOutcome, TaskObservation, AgentTask,
}
use aivtuber.Task.Operations.{
  set_step, is_executed, pop_front, begin_planning, add_step, mark_ready, wait_for, resume,
  begin_execution, expire_if_needed,
}
use aivtuber.Task.Execution.{
  record_observation, finish_step, retry_current_step, replan, verify, cancel,
}

-- No step runs.
abbrev pub Idle : List TaskStep → Type 0
Idle steps = AllAt (λ (s : TaskStep). s.state ≢ executing) steps

-- The step at `i` runs, and no other.
pub record Running (i : ℕ) (steps : List TaskStep) : Type 0 where
  pub current : (s : TaskStep) × (get_elem? steps i ≡ some s) × (s.state ≡ executing)
  pub alone : (j : ℕ) (s : TaskStep) → get_elem? steps j ≡ some s → j ≢ i → s.state ≢ executing

-- At most one step runs.
pub record AtMostOne (steps : List TaskStep) : Type 0 where
  pub same :
      (i j : ℕ) (s u : TaskStep)
      → get_elem? steps i ≡ some s
      → get_elem? steps j ≡ some u
      → s.state ≡ executing
      → u.state ≡ executing
      → i ≡ j

-- There are steps, and each was executed.
pub record Finished (steps : List TaskStep) : Type 0 where
  pub some_step : 0 < length steps
  pub each : AllAt (λ (s : TaskStep). s.state ≡ executed) steps

-- What a state says of the steps, the generation, the expiry and the outcome.
abbrev pub StateFits : TaskState → List TaskStep → ℕ → ℕ → Option TaskOutcome → Type 0
StateFits TaskState.accepted steps g e o = Idle steps × (o ≡ none)
StateFits TaskState.planning steps g e o = Idle steps × (o ≡ none)
StateFits TaskState.ready steps g e o = Idle steps × (o ≡ none)
StateFits (TaskState.waiting c) steps g e o = Idle steps × (c.expires_at_ms ≤ e) × (o ≡ none)
StateFits (TaskState.executing i k) steps g e o = Running i steps × (k ≡ g) × (o ≡ none)
StateFits (TaskState.verifying k) steps g e o = Finished steps × (k ≡ g) × (o ≡ none)
StateFits TaskState.completed steps g e o = Finished steps × (o ≡ some TaskOutcome.completed)
StateFits TaskState.failed steps g e o =
    Finished steps × ((r : String) × (o ≡ some (TaskOutcome.failed r)))
StateFits TaskState.cancelled steps g e o =
    AtMostOne steps × ((r : String) × (o ≡ some (TaskOutcome.cancelled r)))
StateFits TaskState.not_verified steps g e o =
    Idle steps × ((r : String) × (o ≡ some (TaskOutcome.not_verified r)))
StateFits TaskState.expired steps g e o = AtMostOne steps × (o ≡ some TaskOutcome.expired)

pub record IsValid {R : Type 0} (t : AgentTask R) : Type 0 where
  pub steps_capped : length t.steps ≤ t.limits.max_steps
  pub observations_capped : length t.observations ≤ t.limits.max_observations
  pub observations_allowed : 0 < t.limits.max_observations
  pub retries_capped : t.retries ≤ t.limits.max_retries
  pub replans_capped : t.replans ≤ t.limits.max_replans
  pub ordered : t.created_at_ms ≤ t.updated_at_ms
  pub fits : StateFits t.state t.steps t.generation t.expires_at_ms t.outcome

-- The step lists that the operations build.
Idle-push :
    (steps : List TaskStep) (s : TaskStep) → s.state ≡ pending → Idle steps → Idle (steps ++ s ∷ [])
Idle-push steps s p h =
    AllAt-push (λ (x : TaskStep). x.state ≢ executing) steps s (λ e. cc (p, e)) h

set_step-set :
    (steps : List TaskStep) (i : ℕ) (st : TaskStepState) {s : TaskStep}
    → get_elem? steps i ≡ some s
    → set_step steps i st ≡ set steps i (record s { state = st })
unfolding set_step
set_step-set steps i st g = rw (g, set_step)

Running-set_step :
    (steps : List TaskStep) (i : ℕ) (s : TaskStep)
    → get_elem? steps i ≡ some s
    → Idle steps
    → Running i (set_step steps i executing)
Running-set_step steps i s g h =
    let y = record s { state = executing } in
    rw (set_step-set steps i executing g) (record {
      current = (y, get_elem?-set_self steps i y (get_elem?-lt steps i g), refl);
      alone = λ j z gz ne. elim (get_elem?-set steps i j y gz) [
        | inl (e, _) ↦ absurd (ne e)
        | inr (_, old) ↦ h j z old
      ];
    })

Idle-set_step :
    (steps : List TaskStep) (i : ℕ) (st : TaskStepState)
    → st ≢ executing
    → Running i steps
    → Idle (set_step steps i st)
Idle-set_step steps i st ne r j z gz =
    let (s, g, _) = r.current in
    let y = record s { state = st } in
    let gz' = subst (λ l. get_elem? l j ≡ some z) (set_step-set steps i st g) gz in
    elim (get_elem?-set steps i j y gz') [
      | inl (_, e) ↦ subst (λ (w : TaskStep). w.state ≢ executing) e ne
      | inr (other, old) ↦ r.alone j z old other
    ]

length-set_step :
    (steps : List TaskStep) (i : ℕ) (st : TaskStepState)
    → length (set_step steps i st) ≡ length steps
unfolding set_step
length-set_step steps i st = elim (Option-cases (get_elem? steps i)) [
  | inl e ↦ rw (e, set_step)
  | inr (s, e) ↦ rw (e, set_step) (length-set steps i (record s { state = st }))
]

all_executed :
    (steps : List TaskStep)
    → all (λ (s : TaskStep). is_executed s.state) steps ≡ true
    → AllAt (λ (s : TaskStep). s.state ≡ executed) steps
all_executed [] h i x g = cc
all_executed (y ∷ l) h zero x g =
    let same : y ≡ x = cc g in
    let here : y.state ≡ executed = ground arith in
    subst (λ (z : TaskStep). z.state ≡ executed) same here
all_executed (y ∷ l) h (suc i) x g = all_executed l (ground arith) i x g

Finished-set_step :
    (steps : List TaskStep) (i : ℕ)
    → Running i steps
    → all (λ (s : TaskStep). is_executed s.state) (set_step steps i executed) ≡ true
    → Finished (set_step steps i executed)
Finished-set_step steps i r a = record {
  some_step =
      let (s, g, _) = r.current in
      omega (arith, length-set_step steps i executed, get_elem?-lt steps i g);
  each = all_executed (set_step steps i executed) a;
}

-- The slot of the running step.
abbrev current_step : TaskState → ℕ
current_step (TaskState.executing i g) = i
current_step _ = 0

length-pop_front : {A : Type 0} (l : List A) → length (pop_front l) ≡ length l - 1
length-pop_front [] = omega arith
length-pop_front (x ∷ l) = omega arith

pub Idle-nil : Idle []
Idle-nil i x g = absurd cc

Idle-AtMostOne : (steps : List TaskStep) → Idle steps → AtMostOne steps
Idle-AtMostOne steps h = record { same = λ i j s u at there on also. absurd (h i s at on) }

Running-AtMostOne : (steps : List TaskStep) (i : ℕ) → Running i steps → AtMostOne steps
Running-AtMostOne steps i h = record {
  same = λ j k s u at there on also.
      let first = h.alone j s at in
      let second = h.alone k u there in
      elim (Bool-cases (eqb j i)) [
        | inr p ↦ absurd (first (ground arith) on)
        | inl p ↦ elim (Bool-cases (eqb k i)) [
          | inr q ↦ absurd (second (ground arith) also)
          | inl q ↦ ground arith
        ]
      ];
}

Finished-Idle : (steps : List TaskStep) → Finished steps → Idle steps
Finished-Idle steps h i s at on = let done = h.each i s at in cc (done, on)

Finished-AtMostOne : (steps : List TaskStep) → Finished steps → AtMostOne steps
Finished-AtMostOne steps h = Idle-AtMostOne steps (Finished-Idle steps h)

module _ {R : Type 0} (t : AgentTask R) (h : IsValid t) where
  pub begin_planning-IsValid : (now : ℕ) → IsValid (begin_planning t now).0
  unfolding begin_planning
  begin_planning-IsValid now = ground arith

  pub add_step-IsValid : (text : String) → IsValid (add_step t text).0
  unfolding add_step
  add_step-IsValid text =
      let step : TaskStep = record {
        index = length t.steps;
        description = text;
        state = pending;
      } in
      ground (arith, length-append t.steps (step ∷ []), Idle-push t.steps step refl)

  pub mark_ready-IsValid : (now : ℕ) → IsValid (mark_ready t now).0
  unfolding mark_ready
  mark_ready-IsValid now = ground arith

  pub wait_for-IsValid :
      (k : PendingCommitmentKind) (text : String) (ttl now : ℕ)
      → IsValid (wait_for t k text ttl now).0
  unfolding wait_for
  wait_for-IsValid k text ttl now = ground arith

  pub expire_if_needed-IsValid : (now : ℕ) → IsValid (expire_if_needed t now).0
  unfolding expire_if_needed
  expire_if_needed-IsValid now = ground arith

  pub cancel-IsValid : (text : String) (now : ℕ) → IsValid (cancel t text now).0
  unfolding cancel
  cancel-IsValid text now = ground arith

  pub verify-IsValid : (g : ℕ) (v : VerificationResult) (now : ℕ) → IsValid (verify t g v now).0
  unfolding verify
  verify-IsValid g v now = ground arith

  pub replan-IsValid : (now : ℕ) → IsValid (replan t now).0
  unfolding replan
  replan-IsValid now = let none_yet : Idle [] = Idle-nil in ground arith

  pub retry_current_step-IsValid : (now : ℕ) → IsValid (retry_current_step t now).0
  unfolding retry_current_step
  retry_current_step-IsValid now =
      let i = current_step t.state in
      ground (arith, Idle-set_step t.steps i pending (λ e. cc), length-set_step t.steps i pending)

  pub record_observation-IsValid :
      (g : ℕ) (r : R) (v : ToolVerificationOutcome) → IsValid (record_observation t g r v).0
  unfolding record_observation
  record_observation-IsValid g r v =
      let step = current_step t.state in
      let o : TaskObservation R = record {
        step_index = step;
        generation = g;
        result = r;
        verification = v;
      } in
      ground (
        arith,
        length-append t.observations (o ∷ []),
        length-append (pop_front t.observations) (o ∷ []),
        length-pop_front t.observations,
      )

  pub finish_step-IsValid : (now : ℕ) → IsValid (finish_step t now).0
  unfolding finish_step
  finish_step-IsValid now =
      let i = current_step t.state in
      ground (
        arith,
        Idle-set_step t.steps i executed (λ e. cc),
        length-set_step t.steps i executed,
        Finished-set_step t.steps i,
      )

  pub begin_execution-IsValid : (i now : ℕ) → IsValid (begin_execution t i now).0
  unfolding begin_execution
  begin_execution-IsValid i now = elim (Option-cases (get_elem? t.steps i)) [
    | inl e ↦ ground arith
    | inr (s, e) ↦ ground (arith, Running-set_step t.steps i s, length-set_step t.steps i executing)
  ]

  pub resume-IsValid : (now : ℕ) → IsValid (resume t now).0
  unfolding resume
  resume-IsValid now = ground arith
