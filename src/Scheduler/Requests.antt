-- ===== src/Scheduler/Requests.antt =====
-- crates/scheduler/src/lib.rs, `schedule_at`: what a request gets.
use aivtuber.Common.{
  ℕ, ◌+◌, ◌≤◌, ◌<◌, ◌≡◌, sym, ap, ◌∙◌, subst, none, some, get_elem?, max, string_eq, nat_eq, arith,
}
use mathlib.Core.Option.{some-injective}
use aivtuber.Common.Word.{u64_max, saturating_add}
use aivtuber.Common.Map.{lookup}
use aivtuber.Scheduler.Data.{
  PlannedPerformance, ScheduledItem, Scheduler, SchedulerConfig, Rejection, end_at_ms,
  normalize_interrupt_points,
}
use aivtuber.Scheduler.Advance.{advance_to}
use aivtuber.Scheduler.Arbitrate.{Result, ok, err}
use aivtuber.Scheduler.Schedule.{arrive, schedule_at}
use aivtuber.Scheduler.Invariant.{IsConsistent, HistoryBounded}
use aivtuber.Scheduler.Invariant.Advance.{Advanced, advance_to-Advanced}
use aivtuber.Scheduler.Invariant.Place.{Decision, decide_at-Decision}

-- The scheduler between two calls: consistent, with its words in range and room for a generation.
pub record IsReady (s : Scheduler) : Type 0 where
  pub consistent : IsConsistent s
  pub clock : s.now_ms ≤ u64_max
  pub room : s.generation < u64_max

-- The scheduler at the time of a request.
abbrev pub at_request : Scheduler → ℕ → Scheduler
at_request s request = advance_to (record s { last_rejection = none }) request

pub at_request-Advanced :
    (s : Scheduler) (request : ℕ)
    → IsConsistent s
    → Advanced (record s { last_rejection = none }) request (at_request s request)
at_request-Advanced s request h =
    advance_to-Advanced (record s { last_rejection = none }) request
      (record {
        by_generation = h.by_generation;
        by_event = h.by_event;
        slots = h.slots;
        compatible = h.compatible;
      })

module _ (s : Scheduler) (request : ℕ) (plan : PlannedPerformance) (h : IsReady s)
    (word : request ≤ u64_max) (start : plan.start_at_ms ≤ u64_max) where
  decision :
      (t : Scheduler) × (r : Result) × (schedule_at s request plan ≡ some (t, r))
      × Decision (at_request s request) (arrive (at_request s request) request plan) t r
  unfolding schedule_at
  decision =
      let a = at_request-Advanced s request h.consistent in
      decide_at-Decision (at_request s request) request plan (omega (arith, h.room, a.generation))
        (omega (arith, h.clock, word, a.now_ms)) word start a.consistent

  -- A call of `schedule_at` returns, for times that are words, on a consistent scheduler whose clock
  -- is a word and that has a generation left: no index is out of bounds, and the loop over the queue
  -- ends within one round for each item and one more.
  pub schedule_at_returns :
      (t : Scheduler) × (r : Result) × (schedule_at s request plan ≡ some (t, r))
  schedule_at_returns = let (t, r, e, _) = decision in (t, r, e)

  module _ {t : Scheduler} {r : Result} (e : schedule_at s request plan ≡ some (t, r)) where
    pub decided : Decision (at_request s request) (arrive (at_request s request) request plan) t r
    decided =
        let (t', r', e', d) = decision in
        let same : some (t', r') ≡ some (t, r) = sym e' ∙ e in
        subst
          (λ (o : Scheduler × Result).
            Decision (at_request s request) (arrive (at_request s request) request plan) o.0 o.1)
          (some-injective (t', r') (t, r) same) d

IsConsistent-Decision :
    (s : Scheduler) (p : PlannedPerformance) (t : Scheduler) (r : Result)
    → IsConsistent s
    → Decision s p t r
    → IsConsistent t
IsConsistent-Decision s p t (ok q) h d = d.consistent
IsConsistent-Decision s p t (err x) h d = rw d (record {
  by_generation = h.by_generation;
  by_event = h.by_event;
  slots = h.slots;
  compatible = h.compatible;
})

now-Decision :
    (s : Scheduler) (p : PlannedPerformance) (t : Scheduler) (r : Result)
    → Decision s p t r
    → t.now_ms ≡ s.now_ms
now-Decision s p t (ok q) d = d.now_ms
now-Decision s p t (err x) d = ap (λ (u : Scheduler). u.now_ms) d

history-Decision :
    (s : Scheduler) (p : PlannedPerformance) (t : Scheduler) (r : Result)
    → Decision s p t r
    → HistoryBounded s
    → HistoryBounded t
history-Decision s p t (ok q) d b = d.history b
history-Decision s p t (err x) d b = subst HistoryBounded (sym d) b

module _ (s : Scheduler) (request : ℕ) (plan : PlannedPerformance) (h : IsReady s)
    (word : request ≤ u64_max) (start : plan.start_at_ms ≤ u64_max) {t : Scheduler} where
  -- A request, accepted or rejected, keeps the invariant: after it the two liveness indexes hold
  -- exactly the live items at their slots, every item is queued for later or playing, and no two
  -- items that conflict overlap.
  pub schedule_at-IsConsistent :
      (r : Result) → schedule_at s request plan ≡ some (t, r) → IsConsistent t
  schedule_at-IsConsistent r e =
      let a = at_request-Advanced s request h.consistent in
      IsConsistent-Decision (at_request s request) (arrive (at_request s request) request plan) t r
        a.consistent (decided s request plan h word start e)

  pub now-schedule_at :
      (r : Result) → schedule_at s request plan ≡ some (t, r) → t.now_ms ≡ max request s.now_ms
  now-schedule_at r e =
      let a = at_request-Advanced s request h.consistent in
      now-Decision (at_request s request) (arrive (at_request s request) request plan) t r
        (decided s request plan h word start e)
      ∙ a.now_ms

  pub history-schedule_at :
      (r : Result) → schedule_at s request plan ≡ some (t, r) → HistoryBounded s → HistoryBounded t
  history-schedule_at r e b =
      let a = at_request-Advanced s request h.consistent in
      history-Decision (at_request s request) (arrive (at_request s request) request plan) t r
        (decided s request plan h word start e) (a.history b)

  -- On a consistent scheduler with a generation left, and for times that are words, a rejected
  -- request leaves what advancing the time to the request leaves, with the rejection in its field:
  -- beyond that no reservation, cooldown, index or generation is touched.
  pub schedule_at_rejected :
      {x : Rejection}
      → schedule_at s request plan ≡ some (t, err x)
      → t ≡ record (advance_to (record s { last_rejection = none }) request) {
        last_rejection = some x;
      }
  schedule_at_rejected e = decided s request plan h word start e

  -- On a consistent scheduler with a generation left, and for times that are words, an accepted plan
  -- starts no earlier than it asked, than its request and than the current time;
  -- it has the next generation and its own event and asset; it holds a slot, uncancelled; and its
  -- asset cools down until the end of the plan and the minimum spacing.
  pub schedule_at_accepted :
      {p : PlannedPerformance}
      → schedule_at s request plan ≡ some (t, ok p)
      → (plan.start_at_ms ≤ p.start_at_ms)
        × (request ≤ p.start_at_ms)
        × (s.now_ms ≤ p.start_at_ms)
        × (p.generation ≡ s.generation + 1)
        × (p.event_id ≡ plan.event_id)
        × (p.asset_id ≡ plan.asset_id)
        × ((i : ℕ) × (x : ScheduledItem) × (get_elem? t.items i ≡ some x)
            × (x.plan ≡ p)
            × (x.cancel_at_ms ≡ none))
        × (lookup p.asset_id t.cooldowns
            ≡ some (saturating_add (end_at_ms p) s.config.min_reaction_spacing_ms))
  unfolding arrive normalize_interrupt_points
  schedule_at_accepted {p} e =
      let a = at_request-Advanced s request h.consistent in
      let k = decided s request plan h word start e in
      (
        omega (arith, k.start),
        omega (arith, k.start),
        omega (arith, k.start, a.now_ms),
        k.generation ∙ ap (λ (n : ℕ). n + 1) a.generation,
        ap (λ (z : PlannedPerformance). z.event_id) k.plan,
        ap (λ (z : PlannedPerformance). z.asset_id) k.plan,
        k.slot,
        k.cooldown
            ∙ ap
                (λ (c : SchedulerConfig).
                  some (saturating_add (end_at_ms p) c.min_reaction_spacing_ms))
                a.config,
      )
