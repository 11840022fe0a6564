-- ===== src/Scheduler/Invariant/Queue.antt =====
-- The queue of `schedule_at`: no walk over the reservations panics, each round leaves fewer of them
-- in the way, and the loop ends with a start that overlaps no conflicting reservation.
use aivtuber.Common.{
  ℕ, ◌+◌, ◌≤◌, ◌<◌, ◌≡◌, inl, inr, refl, ap, ◌∙◌, Bool, true, ◌&&◌, some, List, [], ◌∷◌, length,
  get_elem?, swap_remove, max, ltb, Bool-cases, get_elem?-lt, get_elem?_total, get_elem?-set_self,
  arith, nat_eq, string_eq,
}
use aivtuber.Common.Word.{u64_max, saturating_add-le_max, le-saturating_add}
use aivtuber.Common.Count.{weight, count_if, count_if-swap_remove, count_if_mono, count_if_strict}
use aivtuber.Common.Slots.{length-swap_remove, swap_remove-set}
use aivtuber.Scheduler.Data.{
  PlannedPerformance, ScheduledItem, cancelled, Scheduler, rank, is_queued, end_at_ms,
  effective_end_ms, plans_conflict,
}
use aivtuber.Scheduler.Advance.{put_item}
use aivtuber.Scheduler.Arbitrate.{cancel_queued, release_cooldown}
use aivtuber.Scheduler.Schedule.{defer_behind, resolve_batch}
use aivtuber.Scheduler.Invariant.{
  TimelineOf, Untouched, Untouched-trans, Timeline-retire_written, items-retire, retire-Untouched,
}
use aivtuber.Scheduler.Invariant.Indices.{Descends}

-- A later start of the same plan, still in a word.
pub record Later (p q : PlannedPerformance) : Type 0 where
  pub same : q ≡ record p { start_at_ms = q.start_at_ms }
  pub start : p.start_at_ms ≤ q.start_at_ms
  pub word : q.start_at_ms ≤ u64_max

pub Later-refl : (p : PlannedPerformance) → p.start_at_ms ≤ u64_max → Later p p
Later-refl p w = record { same = refl; start = omega arith; word = w }

Later-trans : (p q r : PlannedPerformance) → Later p q → Later q r → Later p r
Later-trans p q r a b = record {
  same = b.same ∙ ap (λ (z : PlannedPerformance). record z { start_at_ms = r.start_at_ms }) a.same;
  start = omega (arith, a.start, b.start);
  word = b.word;
}

-- A conflicting reservation that ends after the start of the plan.
abbrev pub waits : PlannedPerformance → ScheduledItem → Bool
waits plan item =
    is_queued item.status
    && (plans_conflict item.plan plan && ltb plan.start_at_ms (effective_end_ms item))

abbrev pub waiting : PlannedPerformance → Scheduler → ℕ
waiting plan s = count_if (waits plan) s.items

-- What one step of a walk, or a whole walk, does.
pub record Walked (P : ScheduledItem → Type 0) (s : Scheduler) (p : PlannedPerformance)
    (t : Scheduler) (q : PlannedPerformance) : Type 0 where
  pub timeline : TimelineOf P t
  pub untouched : Untouched s t
  pub later : Later p q
  pub fewer : waiting q t ≤ waiting p s

pub Walked-trans :
    (P : ScheduledItem → Type 0) (s t u : Scheduler) (p q r : PlannedPerformance)
    → Walked P s p t q
    → Walked P t q u r
    → Walked P s p u r
Walked-trans P s t u p q r a b = record {
  timeline = b.timeline;
  untouched = Untouched-trans s t u a.untouched b.untouched;
  later = Later-trans p q r a.later b.later;
  fewer = omega (arith, a.fewer, b.fewer);
}

module _ (request : ℕ) (s : Scheduler) (k : ℕ) (x : ScheduledItem)
    (at : get_elem? s.items k ≡ some x) where
  pub items-cancel_queued : (cancel_queued s k x request).items ≡ swap_remove s.items k
  unfolding cancel_queued put_item
  items-cancel_queued =
      let inside = get_elem?-lt s.items k at in
      let y = record x { status = cancelled; cancel_at_ms = some request } in
      items-retire (release_cooldown (put_item s k y) x) k request
        (get_elem?-set_self s.items k y inside)
      ∙ swap_remove-set s.items k y inside

  pub Timeline-cancel_queued :
      (P : ScheduledItem → Type 0) → TimelineOf P s → TimelineOf P (cancel_queued s k x request)
  unfolding cancel_queued put_item release_cooldown
  Timeline-cancel_queued P h =
      Timeline-retire_written P (release_cooldown s x) k request x
        (record x { status = cancelled; cancel_at_ms = some request }) refl at
        (record {
          by_generation = h.by_generation;
          by_event = h.by_event;
          slots = h.slots;
          compatible = h.compatible;
        })

  pub cancel_queued-Untouched : Untouched s (cancel_queued s k x request)
  unfolding cancel_queued put_item release_cooldown
  cancel_queued-Untouched =
      let y = record x { status = cancelled; cancel_at_ms = some request } in
      let u = retire-Untouched (release_cooldown (put_item s k y) x) k request in
      record {
        config = u.config;
        now_ms = u.now_ms;
        generation = u.generation;
        history = u.history;
      }

  pub cancel_count :
      (p : PlannedPerformance)
      → waiting p (cancel_queued s k x request) + weight (waits p) x ≡ waiting p s
  cancel_count p = rw items-cancel_queued (count_if-swap_remove (waits p) s.items k at)

  -- A reservation of a lower rank is cancelled.
  pub step_cancel :
      (P : ScheduledItem → Type 0) (p : PlannedPerformance)
      → p.start_at_ms ≤ u64_max
      → TimelineOf P s
      → Walked P s p (cancel_queued s k x request) p
  step_cancel P p w h = record {
    timeline = Timeline-cancel_queued P h;
    untouched = cancel_queued-Untouched;
    later = Later-refl p w;
    fewer = omega (arith, cancel_count p);
  }

pub effective_end-le_max : (x : ScheduledItem) → effective_end_ms x ≤ u64_max
unfolding effective_end_ms end_at_ms
effective_end-le_max x = omega (arith, saturating_add-le_max x.plan.start_at_ms x.plan.duration_ms)

-- The start behind a reservation is no earlier than its end or the start before, in a word.
defer_start :
    (s : Scheduler) (p : PlannedPerformance) (x : ScheduledItem)
    → p.start_at_ms ≤ u64_max
    → let q = (defer_behind s p x).start_at_ms in
      (effective_end_ms x ≤ q) × (p.start_at_ms ≤ q) × (q ≤ u64_max)
unfolding defer_behind
defer_start s p x w =
    let start = max p.start_at_ms (effective_end_ms x) in
    let spacing = s.config.min_reaction_spacing_ms in
    let e = effective_end-le_max x in
    let in_word : start ≤ u64_max = omega arith in
    ground (arith, e, le-saturating_add start spacing in_word, saturating_add-le_max start spacing)

defer-Later :
    (s : Scheduler) (p : PlannedPerformance) (x : ScheduledItem)
    → p.start_at_ms ≤ u64_max
    → Later p (defer_behind s p x)
unfolding defer_behind
defer-Later s p x w =
    let (_, start, word) = defer_start s p x w in record { same = refl; start = start; word = word }

pub conflict-Later :
    (p q : PlannedPerformance) (a : PlannedPerformance)
    → Later p q
    → plans_conflict a q ≡ plans_conflict a p
unfolding plans_conflict
conflict-Later p q a l = ap (λ (z : PlannedPerformance). plans_conflict a z) l.same

-- A later start leaves no more reservations waiting.
waits-Later :
    (p q : PlannedPerformance) (x : ScheduledItem) → Later p q → waits q x ≡ true → waits p x ≡ true
waits-Later p q x l h = ground (arith, conflict-Later p q x.plan l)

module _ (P : ScheduledItem → Type 0) (s : Scheduler) (p : PlannedPerformance) (x : ScheduledItem)
    (w : p.start_at_ms ≤ u64_max) (h : TimelineOf P s) where
  -- The plan waits behind a reservation of its rank or better.
  pub step_defer : Walked P s p s (defer_behind s p x)
  step_defer =
      let later = defer-Later s p x w in
      record {
        timeline = h;
        untouched = record { config = refl; now_ms = refl; generation = refl; history = λ b. b };
        later = later;
        fewer =
            count_if_mono (waits (defer_behind s p x)) (waits p) s.items
              (λ y. waits-Later p (defer_behind s p x) y later);
      }

  -- That reservation no longer waits.
  pub step_defer_fewer :
      (k : ℕ)
      → get_elem? s.items k ≡ some x
      → waits p x ≡ true
      → waiting (defer_behind s p x) s < waiting p s
  step_defer_fewer k at b =
      let later = defer-Later s p x w in
      let (ended, _, _) = defer_start s p x w in
      count_if_strict (waits (defer_behind s p x)) (waits p) s.items k {x = x}
        (λ y. waits-Later p (defer_behind s p x) y later) at (ground arith) b

-- A walk over slots in descending order does not panic.
pub walk :
    (P : ScheduledItem → Type 0) (request : ℕ) (l : List ℕ) (bound : ℕ) (s : Scheduler)
    (p : PlannedPerformance)
    → bound ≤ length s.items
    → Descends bound l
    → p.start_at_ms ≤ u64_max
    → TimelineOf P s
    → (t : Scheduler) × (q : PlannedPerformance) × (resolve_batch request l s p true
        ≡ some (t, q, true))
      × Walked P s p t q
unfolding resolve_batch
walk P request [] bound s p b d w h = (
  s,
  p,
  refl,
  record {
    timeline = h;
    untouched = record { config = refl; now_ms = refl; generation = refl; history = λ b. b };
    later = Later-refl p w;
    fewer = omega arith;
  },
)
walk P request (k ∷ l) bound s p b (lt, d) w h =
    let (x, at) = get_elem?_total s.items k (omega arith) in
    elim (Bool-cases (ltb (rank p.priority) (rank x.plan.priority))) [
      | inl r ↦
          let first = step_cancel request s k x at P p w h in
          let (t, q, e, rest) =
            walk P request l k (cancel_queued s k x request) p
              (rw (items-cancel_queued request s k x at)
                (omega (arith, length-swap_remove s.items k (get_elem?-lt s.items k at))))
              d w first.timeline in
          (
            t,
            q,
            rw (at, resolve_batch, r) e,
            Walked-trans P s (cancel_queued s k x request) t p p q first rest,
          )
      | inr r ↦
          let first = step_defer P s p x w h in
          let (t, q, e, rest) =
            walk P request l k s (defer_behind s p x) (omega arith) d first.later.word h in
          (
            t,
            q,
            rw (at, resolve_batch, r) e,
            Walked-trans P s s t p (defer_behind s p x) q first rest,
          )
    ]
