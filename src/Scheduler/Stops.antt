-- ===== src/Scheduler/Stops.antt =====
-- crates/scheduler/src/lib.rs, `stop_all`: what an operator's stop leaves.
use aivtuber.Common.{
  ℕ, zero, suc, ◌+◌, ◌≤◌, ◌≡◌, ◌⊎◌, inl, inr, refl, sym, ap, ◌∙◌, subst, Bool, true, false, some,
  List, [], ◌∷◌, ◌++◌, length, get_elem?, swap_remove, max, Option-cases, eq-nil_of_length,
  get_elem?-lt, none, ◌≢◌, String, get_elem?-none, get_elem?-set_self, arith, nat_eq, string_eq,
}
use aivtuber.Common.Map.{lookup}
use aivtuber.Common.Count.{weight, count_if, count_if-swap_remove}
use aivtuber.Common.Slots.{length-swap_remove, swap_remove-set}
use aivtuber.Scheduler.Data.{
  PlannedPerformance, ScheduledItem, Status, queued, playing, cancelled, Scheduler,
}
use aivtuber.Scheduler.Advance.{put_item, latest, advance_to}
use aivtuber.Scheduler.Arbitrate.{cancel_queued}
use aivtuber.Scheduler.Stop.{stop_playing, stop_slot, stop_loop, stop_all, is_generation_live}
use aivtuber.Scheduler.Invariant.{
  TimelineOf, LiveItem, IsLive, IsConsistent, HistoryBounded, Untouched, Untouched-trans,
  Timeline-retire_written, items-retire, retire-Untouched,
}
use aivtuber.Scheduler.Invariant.Advance.{advance_to-Advanced}
use aivtuber.Scheduler.Invariant.Queue.{
  items-cancel_queued, Timeline-cancel_queued, cancel_queued-Untouched,
}

module _ (s : Scheduler) (k at_ms : ℕ) (x : ScheduledItem) (at : get_elem? s.items k ≡ some x) where
  items-stop_playing : (stop_playing s k x at_ms).items ≡ swap_remove s.items k
  unfolding stop_playing put_item
  items-stop_playing =
      let inside = get_elem?-lt s.items k at in
      let y = record x { status = cancelled; cancel_at_ms = some at_ms } in
      items-retire
        (put_item (record s { last_terminal_at = some (latest s.last_terminal_at at_ms) }) k y) k
        at_ms (get_elem?-set_self s.items k y inside)
      ∙ swap_remove-set s.items k y inside

  pub Timeline-stop_playing :
      (P : ScheduledItem → Type 0) → TimelineOf P s → TimelineOf P (stop_playing s k x at_ms)
  unfolding stop_playing put_item
  Timeline-stop_playing P h =
      Timeline-retire_written P
        (record s { last_terminal_at = some (latest s.last_terminal_at at_ms) }) k at_ms x
        (record x { status = cancelled; cancel_at_ms = some at_ms }) refl at
        (record {
          by_generation = h.by_generation;
          by_event = h.by_event;
          slots = h.slots;
          compatible = h.compatible;
        })

  pub stop_playing-Untouched : Untouched s (stop_playing s k x at_ms)
  unfolding stop_playing put_item
  stop_playing-Untouched =
      let y = record x { status = cancelled; cancel_at_ms = some at_ms } in
      let u =
        retire-Untouched
          (put_item (record s { last_terminal_at = some (latest s.last_terminal_at at_ms) }) k y) k
          at_ms in
      record {
        config = u.config;
        now_ms = u.now_ms;
        generation = u.generation;
        history = u.history;
      }

-- A turn of the loop of `stop_all` retires a live slot.
record Retired (s : Scheduler) (k : ℕ) (P : ScheduledItem → Type 0) (t : Scheduler) : Type 0 where
  items : t.items ≡ swap_remove s.items k
  timeline : TimelineOf P t
  untouched : Untouched s t

stop_slot_lem :
    (P : ScheduledItem → Type 0) (s : Scheduler) (k at_ms : ℕ) (x : ScheduledItem) (st : Status)
    → (st ≡ queued) ⊎ (st ≡ playing)
    → get_elem? s.items k ≡ some x
    → TimelineOf P s
    → (t : Scheduler) × (stop_slot st s k x at_ms ≡ (t, true)) × Retired s k P t
unfolding stop_slot
stop_slot_lem P s k at_ms x st (inl e) at h = (
  cancel_queued s k x at_ms,
  ap (λ (z : Status). stop_slot z s k x at_ms) e,
  record {
    items = items-cancel_queued at_ms s k x at;
    timeline = Timeline-cancel_queued at_ms s k x at P h;
    untouched = cancel_queued-Untouched at_ms s k x at;
  },
)
stop_slot_lem P s k at_ms x st (inr e) at h = (
  stop_playing s k x at_ms,
  ap (λ (z : Status). stop_slot z s k x at_ms) e,
  record {
    items = items-stop_playing s k at_ms x at;
    timeline = Timeline-stop_playing s k at_ms x at P h;
    untouched = stop_playing-Untouched s k at_ms x at;
  },
)

-- What the loop leaves: nothing, and the plans of what it found, as often as they were there.
record Stopped (s : Scheduler) (stopped : List PlannedPerformance) (P : ScheduledItem → Type 0)
    (t : Scheduler) (plans : List PlannedPerformance) : Type 0 where
  empty : t.items ≡ []
  timeline : TimelineOf P t
  untouched : Untouched s t
  plans_kept :
      (test : PlannedPerformance → Bool)
      → count_if test plans
        ≡ count_if test stopped + count_if (λ (x : ScheduledItem). test x.plan) s.items

count_if-push :
    (test : PlannedPerformance → Bool) (l : List PlannedPerformance) (p : PlannedPerformance)
    → count_if test (l ++ p ∷ []) ≡ count_if test l + weight test p
count_if-push test [] p = omega arith
count_if-push test (q ∷ l) p = omega (arith, count_if-push test l p)

live_status :
    (now : ℕ) (x : ScheduledItem) → IsLive now x → (x.status ≡ queued) ⊎ (x.status ≡ playing)
live_status now x h = ground arith

Stopped-none :
    (P : ScheduledItem → Type 0) (s : Scheduler) (stopped : List PlannedPerformance)
    → length s.items ≤ 0
    → TimelineOf P s
    → Stopped s stopped P s stopped
Stopped-none P s stopped none_left h =
    let nil = eq-nil_of_length s.items none_left in
    record {
      empty = nil;
      timeline = h;
      untouched = record { config = refl; now_ms = refl; generation = refl; history = λ b. b };
      plans_kept = λ test. rw nil (omega arith);
    }

-- One retired slot in front of the rest of the loop.
Stopped-one :
    (P : ScheduledItem → Type 0) (s t u : Scheduler) (x : ScheduledItem)
    (stopped plans : List PlannedPerformance)
    → get_elem? s.items 0 ≡ some x
    → Retired s 0 P t
    → Stopped t (stopped ++ x.plan ∷ []) P u plans
    → Stopped s stopped P u plans
Stopped-one P s t u x stopped plans at r d = record {
  empty = d.empty;
  timeline = d.timeline;
  untouched = Untouched-trans s t u r.untouched d.untouched;
  plans_kept = λ test.
      let here = count_if-swap_remove (λ (y : ScheduledItem). test y.plan) s.items 0 at in
      let left = ap (count_if (λ (y : ScheduledItem). test y.plan)) r.items in
      omega (arith, d.plans_kept test, count_if-push test stopped x.plan, here, left);
}

stop_loop-Stopped :
    (now generation fuel : ℕ) (s : Scheduler) (at_ms : ℕ) (stopped : List PlannedPerformance)
    → length s.items ≤ fuel
    → TimelineOf (LiveItem now generation) s
    → let r = stop_loop fuel s 0 at_ms stopped in
      Stopped s stopped (LiveItem now generation) r.0 r.1
unfolding stop_loop
stop_loop-Stopped now generation zero s at_ms stopped enough h =
    Stopped-none (LiveItem now generation) s stopped enough h
stop_loop-Stopped now generation (suc fuel) s at_ms stopped enough h =
    elim (Option-cases (get_elem? s.items 0)) [
      | inl e ↦
          rw (e, stop_loop)
            (Stopped-none (LiveItem now generation) s stopped (get_elem?-none s.items 0 e) h)
      | inr (x, e) ↦
          let (t, done, r) =
            stop_slot_lem (LiveItem now generation) s 0 at_ms x x.status
              (live_status now x (h.slots 0 x e).0) e h in
          let len = length-swap_remove s.items 0 (get_elem?-lt s.items 0 e) in
          let fewer = ap (λ (xs : List ScheduledItem). length xs) r.items in
          let next = stopped ++ x.plan ∷ [] in
          let rest =
            stop_loop-Stopped now generation fuel t at_ms next (omega (arith, len, fewer, enough))
              r.timeline in
          rw (e, stop_loop, done)
            (Stopped-one (LiveItem now generation) s t (stop_loop fuel t 0 at_ms next).0 x stopped
              (stop_loop fuel t 0 at_ms next).1 e r rest)
    ]

no_slot : (s : Scheduler) (i : ℕ) (x : ScheduledItem) → s.items ≡ [] → get_elem? s.items i ≢ some x
no_slot s i x nil at =
    omega (arith, get_elem?-lt s.items i at, ap (λ (xs : List ScheduledItem). length xs) nil)

module _ {P : ScheduledItem → Type 0} (s : Scheduler) where
  no_generation : (g : ℕ) → s.items ≡ [] → TimelineOf P s → lookup g s.live_by_generation ≡ none
  no_generation g nil h = elim (Option-cases (lookup g s.live_by_generation)) [
    | inl e ↦ e
    | inr (i, e) ↦ let (x, at, _) = h.by_generation.sound g i e in absurd (no_slot s i x nil at)
  ]

  no_event : (id : String) → s.items ≡ [] → TimelineOf P s → lookup id s.live_by_event ≡ none
  no_event id nil h = elim (Option-cases (lookup id s.live_by_event)) [
    | inl e ↦ e
    | inr (i, e) ↦ let (x, at, _) = h.by_event.sound id i e in absurd (no_slot s i x nil at)
  ]

  none_live : (g : ℕ) → s.items ≡ [] → TimelineOf P s → is_generation_live s g ≡ false
  unfolding is_generation_live
  none_live g nil h = rw (no_generation g nil h, is_generation_live)

module _ (s : Scheduler) (at_ms : ℕ) (h : IsConsistent s) where
  stop_all-Stopped :
      let t = advance_to s at_ms in
      Stopped t [] (LiveItem t.now_ms t.generation) (stop_all s at_ms).0 (stop_all s at_ms).1
  unfolding stop_all
  stop_all-Stopped =
      let t = advance_to s at_ms in
      stop_loop-Stopped t.now_ms t.generation (length t.items) t at_ms [] (omega arith)
        (advance_to-Advanced s at_ms h).consistent

  -- On a consistent scheduler an operator's stop leaves no live item, no generation that is live, and
  -- no entry in the index by generation or in the index by event, and it returns the plan of every item that was live at the time of the stop: each
  -- plan as often as it was there, whatever test picks it out.
  pub stop_all_stops :
      ((stop_all s at_ms).0.items ≡ [])
      × ((g : ℕ) → is_generation_live (stop_all s at_ms).0 g ≡ false)
      × ((test : PlannedPerformance → Bool)
          → count_if test (stop_all s at_ms).1
            ≡ count_if (λ (x : ScheduledItem). test x.plan) (advance_to s at_ms).items)
      × ((g : ℕ) → lookup g (stop_all s at_ms).0.live_by_generation ≡ none)
      × ((id : String) → lookup id (stop_all s at_ms).0.live_by_event ≡ none)
  unfolding is_generation_live
  stop_all_stops =
      let d = stop_all-Stopped in
      (
        d.empty,
        (λ g. none_live (stop_all s at_ms).0 g d.empty d.timeline),
        (λ test. omega (arith, d.plans_kept test)),
        (λ g. no_generation (stop_all s at_ms).0 g d.empty d.timeline),
        (λ id. no_event (stop_all s at_ms).0 id d.empty d.timeline),
      )

  pub stop_all-IsConsistent : IsConsistent (stop_all s at_ms).0
  stop_all-IsConsistent =
      let d = stop_all-Stopped in
      let same = d.untouched in
      subst
        (λ (e : record { now : ℕ; generation : ℕ }).
          TimelineOf (LiveItem e.now e.generation) (stop_all s at_ms).0)
        (λ i. record { now = sym same.now_ms i; generation = sym same.generation i }) d.timeline

  pub now-stop_all : (stop_all s at_ms).0.now_ms ≡ max at_ms s.now_ms
  now-stop_all = stop_all-Stopped.untouched.now_ms ∙ (advance_to-Advanced s at_ms h).now_ms

  pub generation-stop_all : (stop_all s at_ms).0.generation ≡ s.generation
  generation-stop_all =
      stop_all-Stopped.untouched.generation ∙ (advance_to-Advanced s at_ms h).generation

  pub history-stop_all : HistoryBounded s → HistoryBounded (stop_all s at_ms).0
  history-stop_all b =
      stop_all-Stopped.untouched.history ((advance_to-Advanced s at_ms h).history b)
