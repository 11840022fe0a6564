-- ===== src/Scheduler/Invariant/Advance.antt =====
-- `advance_to` sweeps the live collection: it keeps the timeline, and leaves only items that the
-- new time has not ended.
use aivtuber.Common.{
  ℕ, zero, suc, ◌+◌, ◌≤◌, ◌≡◌, refl, inl, inr, Bool, true, false, length, get_elem?, max,
  if◌then◌else◌, get_elem?-none, get_elem?-lt, Option-cases, arith,
}
use aivtuber.Common.Slots.{AllAt}
use aivtuber.Scheduler.Data.{ScheduledItem, Scheduler}
use aivtuber.Scheduler.Advance.{advance_slot, advance_loop, expire_cooldowns, advance_to}
use aivtuber.Scheduler.Invariant.{
  TimelineOf, LiveItem, IsConsistent, HistoryBounded, Untouched, Untouched-trans,
}
use aivtuber.Scheduler.Invariant.Turn.{Pending, Settled, Swept, Turn, turn}

-- The sweep with enough fuel passes every slot.
record Done (target generation : ℕ) (s t : Scheduler) : Type 0 where
  timeline : TimelineOf (Pending target generation) t
  settled : AllAt (Settled target) t.items
  same : Untouched s t

-- The rest of the sweep after one turn.
sweep_on :
    (fuel target generation : ℕ) (s : Scheduler) (index : ℕ) (t : Scheduler) (retired : Bool)
    → ((u : Scheduler) (i : ℕ)
        → length u.items ≤ fuel + i
        → Swept target generation u i
        → Done target generation u (advance_loop fuel u i target))
    → length s.items ≤ suc fuel + index
    → Turn target generation s index t retired
    → Done target generation s (advance_loop fuel t (if retired then index else suc index) target)
sweep_on fuel target generation s index t true rest enough (swept, len, same) =
    let d = rest t index (omega (arith, len, enough)) swept in
    record {
      timeline = d.timeline;
      settled = d.settled;
      same = Untouched-trans s t (advance_loop fuel t index target) same d.same;
    }
sweep_on fuel target generation s index t false rest enough (swept, len, same) =
    let d = rest t (suc index) (omega (arith, len, enough)) swept in
    record {
      timeline = d.timeline;
      settled = d.settled;
      same = Untouched-trans s t (advance_loop fuel t (suc index) target) same d.same;
    }

sweep_end :
    (target generation : ℕ) (s : Scheduler) (index : ℕ)
    → length s.items ≤ index
    → Swept target generation s index
    → Done target generation s s
sweep_end target generation s index over h = record {
  timeline = h.timeline;
  settled = λ i x g. h.passed i x (omega (arith, over, get_elem?-lt s.items i g)) g;
  same = record { config = refl; now_ms = refl; generation = refl; history = λ b. b };
}

sweep :
    (fuel target generation : ℕ) (s : Scheduler) (index : ℕ)
    → length s.items ≤ fuel + index
    → Swept target generation s index
    → Done target generation s (advance_loop fuel s index target)
unfolding advance_loop
sweep zero target generation s index enough h = sweep_end target generation s index (omega arith) h
sweep (suc fuel) target generation s index enough h =
    elim (Option-cases (get_elem? s.items index)) [
      | inl e ↦
          rw (e, advance_loop)
            (sweep_end target generation s index (get_elem?-none s.items index e) h)
      | inr (x, e) ↦
          rw (e, advance_loop)
            (sweep_on fuel target generation s index (advance_slot x.status s index x target).0
              (advance_slot x.status s index x target).1 (λ u i. sweep fuel target generation u i)
              enough (turn target generation s index x e h))
    ]

Pending-LiveItem :
    (now target generation : ℕ) (x : ScheduledItem)
    → now ≤ target
    → LiveItem now generation x
    → Pending target generation x
Pending-LiveItem now target generation x le h = ground arith

-- What `advance_to` leaves behind.
pub record Advanced (s : Scheduler) (at_ms : ℕ) (t : Scheduler) : Type 0 where
  pub consistent : IsConsistent t
  pub settled : AllAt (Settled (max at_ms s.now_ms)) t.items
  pub now_ms : t.now_ms ≡ max at_ms s.now_ms
  pub config : t.config ≡ s.config
  pub generation : t.generation ≡ s.generation
  pub history : HistoryBounded s → HistoryBounded t

module _ (s : Scheduler) (at_ms : ℕ) (h : IsConsistent s) where
  swept_all :
      let target = max at_ms s.now_ms in
      let t = expire_cooldowns s target in
      Done target s.generation t (advance_loop (length t.items) t 0 target)
  unfolding expire_cooldowns
  swept_all =
      let target = max at_ms s.now_ms in
      let t = expire_cooldowns s target in
      sweep (length t.items) target s.generation t 0 (omega arith) (record {
        timeline = record {
          by_generation = h.by_generation;
          by_event = h.by_event;
          slots = λ i x g.
              Pending-LiveItem s.now_ms target s.generation x (omega arith) (h.slots i x g);
          compatible = h.compatible;
        };
        passed = λ i x lt g. absurd (omega arith);
      })

  -- On a consistent scheduler `advance_to` sets the clock to the later of the two times and leaves
  -- a consistent scheduler in which every item is settled at that time: it is queued for later, or
  -- it plays and has not reached its end. The configuration and the generation stay, and a history
  -- within the retention policy stays within it.
  pub advance_to-Advanced : Advanced s at_ms (advance_to s at_ms)
  unfolding advance_to expire_cooldowns
  advance_to-Advanced =
      let d = swept_all in
      record {
        consistent = record {
          by_generation = d.timeline.by_generation;
          by_event = d.timeline.by_event;
          slots = λ i x g.
              let settled = d.settled i x g in
              let counted = (d.timeline.slots i x g).1 in
              (ground arith, omega (arith, counted, d.same.generation));
          compatible = d.timeline.compatible;
        };
        settled = d.settled;
        now_ms = refl;
        config = d.same.config;
        generation = d.same.generation;
        history = d.same.history;
      }
