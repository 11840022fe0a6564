-- ===== src/Scheduler/Reachable.antt =====
-- Every scheduler that a sequence of public operations can reach, from `Scheduler::new`.
use aivtuber.Common.{
  ℕ, ◌≤◌, ◌<◌, ◌≡◌, ◌↔◌, inl, inr, sym, ap, ◌∙◌, subst, none, some, List, [], ◌∷◌, get_elem?,
  Option-cases, arith, nat_eq, string_eq,
}
use mathlib.Core.Option.{some-injective}
use aivtuber.Common.Word.{u64_max}
use aivtuber.Common.Map.{lookup}
use aivtuber.Scheduler.Data.{
  PlannedPerformance, ScheduledItem, Scheduler, SchedulerConfig, new_scheduler,
}
use aivtuber.Scheduler.Advance.{advance_to}
use aivtuber.Scheduler.Arbitrate.{Result}
use aivtuber.Scheduler.Schedule.{schedule_at}
use aivtuber.Scheduler.Stop.{
  stop_all, stop_current, complete_all, drain_history, last_end, default_to,
  live_item_by_generation,
}
use aivtuber.Scheduler.Invariant.{IsConsistent, HistoryBounded}
use aivtuber.Scheduler.Invariant.Advance.{advance_to-Advanced}
use aivtuber.Scheduler.Invariant.Queue.{effective_end-le_max}
use aivtuber.Scheduler.Requests.{
  IsReady, schedule_at-IsConsistent, now-schedule_at, history-schedule_at,
}
use aivtuber.Scheduler.Stops.{stop_all-IsConsistent, now-stop_all, history-stop_all}
use aivtuber.Scheduler.Current.{stop_current-CurrentStopped}

-- One call of a public operation. Times are words, and a generation is left for a request.
pub data Step : Scheduler → Scheduler → Type 0 where
  request :
      (s t : Scheduler) (at_ms : ℕ) (plan : PlannedPerformance) (r : Result)
      → at_ms ≤ u64_max
      → plan.start_at_ms ≤ u64_max
      → s.generation < u64_max
      → schedule_at s at_ms plan ≡ some (t, r)
      → Step s t
  advance : (s : Scheduler) (at_ms : ℕ) → at_ms ≤ u64_max → Step s (advance_to s at_ms)
  stop : (s : Scheduler) (at_ms : ℕ) → at_ms ≤ u64_max → Step s (stop_all s at_ms).0
  stop_one : (s : Scheduler) (at_ms : ℕ) → at_ms ≤ u64_max → Step s (stop_current s at_ms).0
  complete : (s : Scheduler) → Step s (complete_all s)
  drain : (s : Scheduler) → Step s (drain_history s).0

pub data Reach (s : Scheduler) : Scheduler → Type 0 where
  here : Reach s s
  next : {t u : Scheduler} → Reach s t → Step t u → Reach s u

-- The invariant with the clock in a word, and the history within the retention policy.
pub record IsSound (s : Scheduler) : Type 0 where
  pub consistent : IsConsistent s
  pub clock : s.now_ms ≤ u64_max
  pub history : HistoryBounded s

pub new_scheduler-IsSound : (c : SchedulerConfig) → IsSound (new_scheduler c)
unfolding new_scheduler lookup
new_scheduler-IsSound c = record {
  consistent = record {
    by_generation = record { complete = λ i x g. cc; sound = λ k i g. absurd cc };
    by_event = record { complete = λ i x g. cc; sound = λ k i g. absurd cc };
    slots = λ i x g. absurd cc;
    compatible = λ i j x y g g' ne. absurd cc;
  };
  clock = omega arith;
  history = inr (omega arith);
}

last_end-le_max :
    (xs : List ScheduledItem) (d : ℕ) → d ≤ u64_max → default_to (last_end xs) d ≤ u64_max
unfolding last_end
last_end-le_max [] d h = h
last_end-le_max (x ∷ xs) d h =
    let e = effective_end-le_max x in ground (arith, last_end-le_max xs 0)

advance_to-IsSound :
    (s : Scheduler) (at_ms : ℕ) → at_ms ≤ u64_max → IsSound s → IsSound (advance_to s at_ms)
advance_to-IsSound s at_ms w h =
    let a = advance_to-Advanced s at_ms h.consistent in
    record {
      consistent = a.consistent;
      clock = omega (arith, a.now_ms, h.clock, w);
      history = a.history h.history;
    }

pub Step-IsSound : {s t : Scheduler} → Step s t → IsSound s → IsSound t
unfolding complete_all drain_history
Step-IsSound (request s t at_ms plan r w v room e) h =
    let ready : IsReady s = record { consistent = h.consistent; clock = h.clock; room = room } in
    record {
      consistent = schedule_at-IsConsistent s at_ms plan ready w v r e;
      clock = omega (arith, now-schedule_at s at_ms plan ready w v r e, h.clock, w);
      history = history-schedule_at s at_ms plan ready w v r e h.history;
    }
Step-IsSound (advance s at_ms w) h = advance_to-IsSound s at_ms w h
Step-IsSound (stop s at_ms w) h = record {
  consistent = stop_all-IsConsistent s at_ms h.consistent;
  clock = omega (arith, now-stop_all s at_ms h.consistent, h.clock, w);
  history = history-stop_all s at_ms h.consistent h.history;
}
Step-IsSound (stop_one s at_ms w) h =
    let c = stop_current-CurrentStopped s at_ms h.consistent in
    record {
      consistent = c.consistent;
      clock = omega (arith, c.now_ms, h.clock, w);
      history = c.history h.history;
    }
Step-IsSound (complete s) h =
    advance_to-IsSound s (default_to (last_end s.items) s.now_ms)
      (last_end-le_max s.items s.now_ms h.clock) h
Step-IsSound (drain s) h = record {
  consistent = record {
    by_generation = h.consistent.by_generation;
    by_event = h.consistent.by_event;
    slots = h.consistent.slots;
    compatible = h.consistent.compatible;
  };
  clock = h.clock;
  history = inr (omega arith);
}

-- Whatever the sequence of requests, advances, stops, completions and exports, with times that are
-- words and a generation left for each request, the scheduler stays sound: the indexes fit the live
-- items, every item is queued for later or playing, no two conflicting items overlap, and the ring
-- of the history keeps to its capacity.
pub Reach-IsSound : (c : SchedulerConfig) {s : Scheduler} → Reach (new_scheduler c) s → IsSound s
Reach-IsSound c here = new_scheduler-IsSound c
Reach-IsSound c (next r st) = Step-IsSound st (Reach-IsSound c r)

-- On a consistent scheduler the lookup by generation finds exactly the live items.
pub live_item_by_generation_iff :
    (s : Scheduler)
    → IsConsistent s
    → (g : ℕ) (x : ScheduledItem)
    → (live_item_by_generation s g ≡ some x)
      ↔ ((i : ℕ) × (get_elem? s.items i ≡ some x) × (x.plan.generation ≡ g))
unfolding live_item_by_generation
live_item_by_generation_iff s h g x = (found, stored)
  where
    found :
        live_item_by_generation s g ≡ some x
        → (i : ℕ) × (get_elem? s.items i ≡ some x) × (x.plan.generation ≡ g)
    found e = elim (Option-cases (lookup g s.live_by_generation)) [
      | inl n ↦
          let miss : live_item_by_generation s g ≡ none = rw (n, live_item_by_generation) in
          cc (e, miss)
      | inr (i, f) ↦
          let (y, at, k) = h.by_generation.sound g i f in
          let here : live_item_by_generation s g ≡ get_elem? s.items i =
            rw (f, live_item_by_generation) in
          let same : some y ≡ some x = sym at ∙ sym here ∙ e in
          (
            i,
            at ∙ same,
            ap (λ (z : ScheduledItem). z.plan.generation) (sym (some-injective y x same)) ∙ k,
          )
    ]

    stored :
        (i : ℕ) × (get_elem? s.items i ≡ some x) × (x.plan.generation ≡ g)
        → live_item_by_generation s g ≡ some x
    stored (i, at, k) =
        let f : lookup g s.live_by_generation ≡ some i =
          subst (λ n. lookup n s.live_by_generation ≡ some i) k (h.by_generation.complete i x at) in
        rw (f, live_item_by_generation) at
