-- ===== src/Scheduler/Invariant/Commit.antt =====
-- The entry of an accepted plan into the timeline.
use aivtuber.Common.{
  ℕ, ◌+◌, ◌≤◌, ◌<◌, ◌≡◌, ◌≢◌, ◌⊎◌, refl, ap, ◌∙◌, Bool, true, false, ◌&&◌, none, leb, if◌then◌else◌,
  arith, nat_eq, string_eq,
}
use aivtuber.Common.Word.{u64_max, saturating_add, saturating_add_exact}
use aivtuber.Common.Index.{Indexes-push}
use aivtuber.Common.Slots.{AllAt-push, PairwiseAt-push}
use aivtuber.Scheduler.Data.{
  PlannedPerformance, ScheduledItem, queued, playing, Scheduler, Channels, channels_meet, end_at_ms,
  effective_end_ms, plans_conflict, intervals_overlap,
}
use aivtuber.Scheduler.Schedule.{blocks, commit}
use aivtuber.Scheduler.Invariant.{
  TimelineOf, LiveItem, IsConsistent, Compatible, generation_of, event_of,
}
use aivtuber.Scheduler.Invariant.Queue.{Later, conflict-Later}
use aivtuber.Scheduler.Invariant.Settle.{NoneBlocks}

and_comm : (a b : Bool) → (a && b) ≡ (b && a)
and_comm true true = refl
and_comm true false = refl
and_comm false true = refl
and_comm false false = refl

channels_meet_comm : (a b : Channels) → channels_meet a b ≡ channels_meet b a
unfolding channels_meet
channels_meet_comm a b = rw (
  and_comm a.audio b.audio,
  and_comm a.face b.face,
  and_comm a.body b.body,
  and_comm a.gaze b.gaze,
  and_comm a.overlay b.overlay,
)

pub plans_conflict_comm : (a b : PlannedPerformance) → plans_conflict a b ≡ plans_conflict b a
unfolding plans_conflict
plans_conflict_comm a b = ground (arith, channels_meet_comm a.channels b.channels)

-- What is known of an item when a plan is about to enter: it is live, it is another event, and if
-- it plays it conflicts with nothing of the plan or ends before the plan starts.
abbrev pub Admits : ℕ → ℕ → PlannedPerformance → ScheduledItem → Type 0
Admits now generation p x =
    LiveItem now generation x
    × (event_of x ≢ p.event_id)
    × ((x.status ≡ queued)
        ⊎ (plans_conflict x.plan p ≡ false)
        ⊎ (effective_end_ms x ≤ p.start_at_ms))

-- The item that `commit` pushes.
abbrev pub committed : Scheduler → PlannedPerformance → ScheduledItem
committed s p = record {
  plan = record p { generation = saturating_add s.generation 1 };
  status = if leb p.start_at_ms s.now_ms then playing else queued;
  cancel_at_ms = none;
}

module _ (s : Scheduler) (p q : PlannedPerformance) (l : Later p q) where
  -- An old item neither overlaps the new one nor is overlapped by it.
  Compatible-committed :
      (x : ScheduledItem)
      → Admits s.now_ms s.generation p x
      → blocks q x ≡ false
      → Compatible x (committed s q)
  unfolding effective_end_ms end_at_ms plans_conflict intervals_overlap
  Compatible-committed x (live, _, clear) free =
      ground (arith, conflict-Later p q x.plan l, l.start)

  Compatible-committed_sym :
      (x : ScheduledItem)
      → Admits s.now_ms s.generation p x
      → blocks q x ≡ false
      → Compatible (committed s q) x
  Compatible-committed_sym x a free =
      let c = Compatible-committed x a free in
      let swap = plans_conflict_comm (committed s q).plan x.plan in ground arith

  event_later : q.event_id ≡ p.event_id
  event_later = ap (λ (z : PlannedPerformance). z.event_id) l.same

  module _ (room : s.generation < u64_max) (h : TimelineOf (Admits s.now_ms s.generation p) s)
      (free : NoneBlocks q s) where
    generation_committed : saturating_add s.generation 1 ≡ s.generation + 1
    generation_committed = saturating_add_exact s.generation 1 (omega arith)

    committed-LiveItem : LiveItem s.now_ms (saturating_add s.generation 1) (committed s q)
    committed-LiveItem = ground arith

    older-LiveItem :
        (x : ScheduledItem)
        → Admits s.now_ms s.generation p x
        → LiveItem s.now_ms (saturating_add s.generation 1) x
    older-LiveItem x (live, _, _) = ground (arith, generation_committed)

    -- The new item is indexed, live, and overlaps nothing that it conflicts with.
    pub commit-IsConsistent : IsConsistent (commit s q).0
    unfolding commit
    commit-IsConsistent = record {
      by_generation =
          Indexes-push generation_of s.items s.live_by_generation (committed s q)
            (λ i x g.
              let (_, counted) = (h.slots i x g).0 in
              λ e. absurd (omega (arith, counted, generation_committed, e)))
            h.by_generation;
      by_event =
          Indexes-push event_of s.items s.live_by_event (committed s q)
            (λ i x g. λ e. (h.slots i x g).1 (e ∙ event_later)) h.by_event;
      slots =
          AllAt-push (LiveItem s.now_ms (saturating_add s.generation 1)) s.items (committed s q)
            committed-LiveItem (λ i x g. older-LiveItem x (h.slots i x g));
      compatible =
          PairwiseAt-push Compatible s.items (committed s q)
            (λ i x g. (
              Compatible-committed x (h.slots i x g) (free i x g),
              Compatible-committed_sym x (h.slots i x g) (free i x g),
            ))
            h.compatible;
    }
