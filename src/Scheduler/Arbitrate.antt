-- ===== src/Scheduler/Arbitrate.antt =====
-- crates/scheduler/src/lib.rs: `schedule_at`, `schedule` and `cancel_queued`.
use aivtuber.Common.{
  ℕ, suc, max, min, Bool, false, ◌&&◌, Option, none, some, List, [], ◌∷◌, ◌++◌, get_elem?, ltb,
  ◌==◌, if◌then◌else◌, nat_eq, string_eq,
}
use aivtuber.Common.Map.{lookup, remove}
use aivtuber.Common.Word.{saturating_add}
use aivtuber.Scheduler.Data.{
  PlannedPerformance, ScheduledItem, cancelled, Scheduler, Rejection, rank, is_operator, is_playing,
  end_at_ms, plans_conflict, next_safe_boundary,
}
use aivtuber.Scheduler.Advance.{retire, put_item, latest}

pub data Result : Type 0 where
  ok : PlannedPerformance → Result
  err : Rejection → Result

-- The prefix of `cancel_queued`: the reservation's own cooldown is dropped.
unfoldable pub release_cooldown : Scheduler → ScheduledItem → Scheduler
release_cooldown s item =
    let planned = saturating_add (end_at_ms item.plan) s.config.min_reaction_spacing_ms in
    let asset = item.plan.asset_id in
    let owned : Bool = elim (lookup asset s.cooldowns) [
      | none ↦ false
      | some until ↦ until == planned
    ] in
    record s { cooldowns = if owned then remove asset s.cooldowns else s.cooldowns }

-- `cancel_queued` at a slot that holds `item`.
unfoldable pub cancel_queued : Scheduler → ℕ → ScheduledItem → ℕ → Scheduler
unfolding release_cooldown
cancel_queued s index item at_ms =
    let t = put_item s index (record item { status = cancelled; cancel_at_ms = some at_ms }) in
    retire (release_cooldown t item) index at_ms

-- `items.iter().enumerate().filter(..).map(index)`, in ascending order from `index`.
unfoldable pub indices_from : ℕ → (ScheduledItem → Bool) → List ScheduledItem → List ℕ
indices_from index p [] = []
indices_from index p (x ∷ xs) =
    let rest = indices_from (suc index) p xs in if p x then index ∷ rest else rest

-- The same indices after `sort_unstable_by(|a, b| b.cmp(a))`: in descending order.
unfoldable pub reverse_onto : List ℕ → List ℕ → List ℕ
reverse_onto [] out = out
reverse_onto (x ∷ xs) out = reverse_onto xs (x ∷ out)

abbrev pub is_active_conflict : PlannedPerformance → ScheduledItem → Bool
is_active_conflict plan item = is_playing item.status && plans_conflict item.plan plan

-- The state of the arbitration against playing work.
pub record Handoff : Type 0 where
  pub candidate_start : ℕ
  pub handoff_terminal : Option ℕ
  pub pending_cancellations : List (ℕ × ℕ)

pub data Arbitration : Type 0 where
  yields : Handoff → Arbitration
  outranked : Arbitration
  panic : Arbitration

-- Where a playing performance is left.
unfoldable pub boundary_of : PlannedPerformance → ℕ → ℕ
boundary_of p request = if p.interruptible then next_safe_boundary p request else end_at_ms p

unfoldable pub hand_off : Handoff → ℕ → ScheduledItem → ℕ → Handoff
unfolding boundary_of
hand_off h index item request =
    let boundary = boundary_of item.plan request in
    record {
      candidate_start = max h.candidate_start boundary;
      handoff_terminal = some (latest h.handoff_terminal boundary);
      pending_cancellations =
          if ltb boundary (end_at_ms item.plan)
          then h.pending_cancellations ++ (index, boundary) ∷ []
          else h.pending_cancellations;
    }

-- `for index in active_indices`
unfoldable pub arbitrate : List ScheduledItem → ℕ → ℕ → List ℕ → Handoff → Arbitration
unfolding hand_off
arbitrate items incoming request [] h = yields h
arbitrate items incoming request (index ∷ rest) h = elim (get_elem? items index) [
  | none ↦ panic
  | some item ↦
      let next = arbitrate items incoming request rest (hand_off h index item request) in
      if ltb (rank item.plan.priority) incoming then outranked else next
]

-- `Some(current.map_or(boundary, |value| value.min(boundary)))`
abbrev pub earliest : Option ℕ → ℕ → ℕ
earliest none boundary = boundary
earliest (some value) boundary = min value boundary

-- `for (index, boundary) in pending_cancellations`
unfoldable pub apply_cancellations : List (ℕ × ℕ) → Scheduler → Option Scheduler
apply_cancellations [] s = some s
apply_cancellations ((index, boundary) ∷ rest) s = elim (get_elem? s.items index) [
  | none ↦ none
  | some item ↦
      apply_cancellations rest (
        put_item s index
          (record item { cancel_at_ms = some (earliest item.cancel_at_ms boundary) }))
]

-- The minimum spacing after a handoff, or after the last terminal transition.
unfoldable pub spaced_start : Scheduler → PlannedPerformance → Handoff → ℕ
spaced_start s plan h =
    if is_operator plan.priority then h.candidate_start else elim h.handoff_terminal [
      | some terminal ↦
          max h.candidate_start (saturating_add terminal s.config.min_reaction_spacing_ms)
      | none ↦ elim s.last_terminal_at [
        | some last ↦ max h.candidate_start (saturating_add last s.config.min_reaction_spacing_ms)
        | none ↦ h.candidate_start
      ]
    ]
