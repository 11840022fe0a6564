-- ===== src/Scheduler/Invariant/Settle.antt =====
-- The loop of `schedule_at` over the queue: with as much fuel as there are items it ends, and then
-- no reservation overlaps the plan.
use aivtuber.Common.{
  ℕ, zero, suc, ◌≤◌, ◌<◌, ◌≡◌, ◌⊎◌, inl, inr, refl, true, false, some, List, [], ◌∷◌, length,
  get_elem?, ltb, Bool-cases, arith,
}
use aivtuber.Common.Word.{u64_max}
use aivtuber.Common.Count.{count_if-le}
use aivtuber.Common.Slots.{length-swap_remove}
use aivtuber.Scheduler.Data.{PlannedPerformance, ScheduledItem, Scheduler, rank, intervals_overlap}
use aivtuber.Scheduler.Arbitrate.{cancel_queued, indices_from, reverse_onto}
use aivtuber.Scheduler.Schedule.{blocks, defer_behind, resolve_batch, resolve_queue}
use aivtuber.Scheduler.Invariant.{TimelineOf}
use aivtuber.Scheduler.Invariant.Indices.{
  Descends, AllPass, AllPass-descending, Descends-descending, Has-descending,
}
use aivtuber.Scheduler.Invariant.Queue.{
  Later-refl, waits, waiting, Walked, Walked-trans, walk, step_cancel, step_defer, step_defer_fewer,
  cancel_count, items-cancel_queued,
}

waits_of_blocks :
    (p : PlannedPerformance) (x : ScheduledItem) → blocks p x ≡ true → waits p x ≡ true
unfolding intervals_overlap
waits_of_blocks p x h = ground arith

-- A round that finds a reservation in the way leaves fewer of them.
round :
    (P : ScheduledItem → Type 0) (request : ℕ) (k : ℕ) (l : List ℕ) (s : Scheduler)
    (p : PlannedPerformance)
    → Descends (length s.items) (k ∷ l)
    → AllPass (blocks p) s.items (k ∷ l)
    → p.start_at_ms ≤ u64_max
    → TimelineOf P s
    → (t : Scheduler) × (q : PlannedPerformance) × (resolve_batch request (k ∷ l) s p false
        ≡ some (t, q, true))
      × Walked P s p t q
      × (waiting q t < waiting p s)
unfolding resolve_batch
round P request k l s p (lt, d) ((x, at, b), _) w h =
    let wait = waits_of_blocks p x b in
    elim (Bool-cases (ltb (rank p.priority) (rank x.plan.priority))) [
      | inl r ↦
          let first = step_cancel request s k x at P p w h in
          let count = cancel_count request s k x at p in
          let (t, q, e, rest) =
            walk P request l k (cancel_queued s k x request) p
              (rw (items-cancel_queued request s k x at)
                (omega (arith, length-swap_remove s.items k lt)))
              d w first.timeline in
          (
            t,
            q,
            rw (at, resolve_batch, r) e,
            Walked-trans P s (cancel_queued s k x request) t p p q first rest,
            ground (arith, count, rest.fewer, wait),
          )
      | inr r ↦
          let first = step_defer P s p x w h in
          let strict = step_defer_fewer P s p x w h k at wait in
          let (t, q, e, rest) =
            walk P request l k s (defer_behind s p x) (omega arith) d first.later.word h in
          (
            t,
            q,
            rw (at, resolve_batch, r) e,
            Walked-trans P s s t p (defer_behind s p x) q first rest,
            omega (arith, strict, rest.fewer),
          )
    ]

-- No reservation overlaps the plan.
abbrev pub NoneBlocks : PlannedPerformance → Scheduler → Type 0
NoneBlocks q t = (i : ℕ) (x : ScheduledItem) → get_elem? t.items i ≡ some x → blocks q x ≡ false

none_blocks :
    (p : PlannedPerformance) (s : Scheduler)
    → reverse_onto (indices_from 0 (blocks p) s.items) [] ≡ []
    → NoneBlocks p s
none_blocks p s e i x g = elim (Bool-cases (blocks p x)) [
  | inl b ↦ absurd (rw e at (Has-descending (blocks p) s.items i g b))
  | inr b ↦ b
]

List-cases : (l : List ℕ) → (l ≡ []) ⊎ ((k : ℕ) × (r : List ℕ) × (l ≡ k ∷ r))
List-cases [] = inl refl
List-cases (k ∷ r) = inr (k, r, refl)

-- What the loop returns.
pub record Settles (P : ScheduledItem → Type 0) (fuel request : ℕ) (s : Scheduler)
    (p : PlannedPerformance) : Type 0 where
  pub after : Scheduler
  pub plan : PlannedPerformance
  pub returns : resolve_queue fuel request s p ≡ some (after, plan)
  pub walked : Walked P s p after plan
  pub free : NoneBlocks plan after

settle :
    (P : ScheduledItem → Type 0) (fuel request : ℕ) (s : Scheduler) (p : PlannedPerformance)
    → waiting p s < fuel
    → p.start_at_ms ≤ u64_max
    → TimelineOf P s
    → Settles P fuel request s p
unfolding resolve_queue
settle P zero request s p f w h = absurd (omega arith)
settle P (suc fuel) request s p f w h =
    let all = AllPass-descending (blocks p) s.items in
    let down = Descends-descending (blocks p) s.items in
    elim (List-cases (reverse_onto (indices_from 0 (blocks p) s.items) [])) [
      | inl e ↦ record {
        after = s;
        plan = p;
        returns = rw (e, resolve_queue);
        walked = record {
          timeline = h;
          untouched = record { config = refl; now_ms = refl; generation = refl; history = λ b. b };
          later = Later-refl p w;
          fewer = omega arith;
        };
        free = none_blocks p s e;
      }
      | inr (k, l, e) ↦
          let (t, q, done, first, less) =
            round P request k l s p (rw e at down) (rw e at all) w h in
          let rest = settle P fuel request t q (omega arith) first.later.word first.timeline in
          record {
            after = rest.after;
            plan = rest.plan;
            returns = rw (e, resolve_queue, done) rest.returns;
            walked = Walked-trans P s t rest.after p q rest.plan first rest.walked;
            free = rest.free;
          }
    ]

-- The fuel that `schedule_at` gives is enough.
pub settle_all :
    (P : ScheduledItem → Type 0) (request : ℕ) (s : Scheduler) (p : PlannedPerformance)
    → p.start_at_ms ≤ u64_max
    → TimelineOf P s
    → Settles P (suc (length s.items)) request s p
settle_all P request s p w h =
    settle P (suc (length s.items)) request s p (omega (arith, count_if-le (waits p) s.items)) w h
