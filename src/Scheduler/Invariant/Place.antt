-- ===== src/Scheduler/Invariant/Place.antt =====
-- `place` and `decide_at`: the decision about a request always comes, and is a rejection that
-- changes nothing or an acceptance that keeps the invariant.
use aivtuber.Common.{
  ℕ, ◌+◌, ◌≤◌, ◌<◌, ◌≡◌, ◌≢◌, ◌⊎◌, inl, inr, refl, sym, ap, ◌∙◌, subst, false, Option, none, some,
  List, [], ltb, any, Bool-cases, arith, nat_eq, string_eq, ◌==◌,
}
use aivtuber.Common.Word.{u64_max, saturating_add}
use aivtuber.Common.Map.{lookup}
use aivtuber.Common.Slots.{AllAt}
use aivtuber.Scheduler.Data.{
  PlannedPerformance, ScheduledItem, queued, Scheduler, SchedulerConfig, cooldown, priority,
  duplicate_event, rank, end_at_ms, effective_end_ms, plans_conflict, unwrap_or,
  normalize_interrupt_points,
}
use aivtuber.Scheduler.Arbitrate.{
  Result, ok, err, Handoff, Arbitration, yields, outranked, panic, indices_from, is_active_conflict,
  arbitrate, apply_cancellations, spaced_start, boundary_of,
}
use aivtuber.Scheduler.Schedule.{reject, reserve, place, arrive, decide_at}
use aivtuber.Scheduler.Invariant.{TimelineOf, LiveItem, IsLive, IsConsistent, Untouched, event_of}
use aivtuber.Scheduler.Invariant.Indices.{AllPass-indices, Has-indices}
use aivtuber.Scheduler.Invariant.Handoff.{Arbitrated, ArbitrationOf, arbitrate-ArbitrationOf}
use aivtuber.Scheduler.Invariant.Cancel.{Cancels, Shortens, apply_cancellations-Cancels}
use aivtuber.Scheduler.Invariant.Commit.{Admits}
use aivtuber.Scheduler.Invariant.Reserve.{
  Accepted, LiveItem-Survives, Timeline_weaken, spaced_start_bounds, fresh_event, reserve-Accepted,
}

-- What `place` returns: a rejection that changes nothing but the field for it, or an acceptance.
abbrev pub Decision : Scheduler → PlannedPerformance → Scheduler → Result → Type 0
Decision s p t (err r) = t ≡ record s { last_rejection = some r }
Decision s p t (ok q) = Accepted s p t q

effective_end-le_end : (x : ScheduledItem) → effective_end_ms x ≤ end_at_ms x.plan
unfolding effective_end_ms
effective_end-le_end x = omega arith

-- A live item outside the arbitration is queued, or has no conflict.
quiet_item :
    (now : ℕ) (plan : PlannedPerformance) (x y : ScheduledItem)
    → Shortens x y
    → is_active_conflict plan x ≡ false
    → IsLive now y
    → (y.status ≡ queued) ⊎ (plans_conflict y.plan plan ≡ false)
quiet_item now plan x y short quiet live =
    let same = ap (λ (z : PlannedPerformance). plans_conflict z plan) short.plan in ground arith

-- The item at a slot after the cancellations, with respect to the plan.
Admits-cut :
    (s t : Scheduler) (request : ℕ) (plan : PlannedPerformance) (start h : Handoff) (start' : ℕ)
    → h.candidate_start ≤ start'
    → Arbitrated s.items request (indices_from 0 (is_active_conflict plan) s.items) start h
    → Cancels (LiveItem s.now_ms s.generation) h.pending_cancellations s t
    → AllAt (λ x. event_of x ≢ plan.event_id) s.items
    → AllAt (Admits s.now_ms s.generation (record plan { start_at_ms = start' })) t.items
unfolding plans_conflict
Admits-cut s t request plan start h start' le a c fresh i y g =
    let (x, at, short) = c.slots i y g in
    (
      c.timeline.slots i y g,
      subst (λ (z : PlannedPerformance). z.event_id ≢ plan.event_id) (sym short.plan)
          (fresh i x at),
      elim (Bool-cases (is_active_conflict plan x)) [
        | inr quiet ↦ elim (quiet_item s.now_ms plan x y short quiet (c.timeline.slots i y g).0) [
          | inl q ↦ inl q
          | inr n ↦ inr (inl n)
        ]
        | inl conflict ↦
            let (bound, ends) =
              a.covers i x (Has-indices (is_active_conflict plan) s.items i at conflict) at in
            elim ends [
              | inl e ↦ inr (inr (omega (arith, e, bound, le, short.ends, effective_end-le_end x)))
              | inr m ↦
                  let cut = c.cut i (boundary_of x.plan request) y m g in
                  inr (inr (omega (arith, cut, bound, le)))
            ]
      ],
    )

module _ (s : Scheduler) (request : ℕ) (plan : PlannedPerformance) where
  abbrev active : List ℕ
  active = indices_from 0 (is_active_conflict plan) s.items

  abbrev before : Handoff
  before = record {
    candidate_start = plan.start_at_ms;
    handoff_terminal = none;
    pending_cancellations = [];
  }

  abbrev Placed : Option (Scheduler × Result) → Type 0
  Placed o = (t : Scheduler) × (r : Result) × (o ≡ some (t, r)) × Decision s plan t r

  -- The rest of `place` once the playing work gives way.
  place_yields :
      (h : Handoff)
      → s.generation < u64_max
      → AllAt (λ x. event_of x ≢ plan.event_id) s.items
      → IsConsistent s
      → Arbitrated s.items request active before h
      → Placed (elim (apply_cancellations h.pending_cancellations s) [
        | none ↦ none
        | some t ↦ reserve t request (record plan { start_at_ms = spaced_start t plan h })
      ])
  place_yields h room fresh c a =
      let (t, e, cancels) =
        apply_cancellations-Cancels (LiveItem s.now_ms s.generation) h.pending_cancellations s
          (LiveItem-Survives s.now_ms s.generation) a.inside c in
      let same = cancels.untouched in
      let start = spaced_start t plan h in
      let (later, word) = spaced_start_bounds t plan h a.word in
      let placed = record plan { start_at_ms = start } in
      let admitted = Admits-cut s t request plan before h start later a cancels fresh in
      let timeline : TimelineOf (Admits t.now_ms t.generation placed) t =
        subst
          (λ (e : record { now : ℕ; generation : ℕ }).
            TimelineOf (Admits e.now e.generation placed) t)
          (λ i. record { now = sym same.now_ms i; generation = sym same.generation i })
          (Timeline_weaken (LiveItem s.now_ms s.generation) (Admits s.now_ms s.generation placed) t
            admitted cancels.timeline) in
      let (u, q, done, ok_q) =
        reserve-Accepted t request placed (omega (arith, room, same.generation)) word timeline in
      (u, ok q, rw e done, Accepted_before t h u q same a later ok_q)
    where
      Accepted_before :
          (t : Scheduler) (h : Handoff) (u : Scheduler) (q : PlannedPerformance)
          → Untouched s t
          → Arbitrated s.items request active before h
          → h.candidate_start ≤ spaced_start t plan h
          → Accepted t (record plan { start_at_ms = spaced_start t plan h }) u q
          → Accepted s plan u q
      Accepted_before t h u q same a later k = record {
        consistent = k.consistent;
        plan = k.plan;
        start = omega (arith, later, k.start, a.extends.start);
        generation = k.generation ∙ ap (λ (n : ℕ). n + 1) same.generation;
        counter = k.counter ∙ ap (λ (n : ℕ). n + 1) same.generation;
        now_ms = k.now_ms ∙ same.now_ms;
        config = k.config ∙ same.config;
        history = λ b. k.history (same.history b);
        slot = k.slot;
        cooldown =
            k.cooldown
            ∙ ap
                (λ (c : SchedulerConfig).
                  some (saturating_add (end_at_ms q) c.min_reaction_spacing_ms))
                same.config;
      }

  place_by :
      (r : Arbitration)
      → s.generation < u64_max
      → AllAt (λ x. event_of x ≢ plan.event_id) s.items
      → IsConsistent s
      → ArbitrationOf s.items request active before r
      → Placed (elim r [
        | panic ↦ none
        | outranked ↦ some (reject s priority)
        | yields h ↦ elim (apply_cancellations h.pending_cancellations s) [
          | none ↦ none
          | some t ↦ reserve t request (record plan { start_at_ms = spaced_start t plan h })
        ]
      ])
  unfolding reject
  place_by panic room fresh c a = absurd a
  place_by outranked room fresh c a =
      (record s { last_rejection = some priority }, err priority, refl, refl)
  place_by (yields h) room fresh c a = place_yields h room fresh c a

  -- `place` returns, with a rejection or an acceptance.
  pub place-Decision :
      s.generation < u64_max
      → plan.start_at_ms ≤ u64_max
      → AllAt (λ x. event_of x ≢ plan.event_id) s.items
      → IsConsistent s
      → (t : Scheduler) × (r : Result) × (place s request plan ≡ some (t, r)) × Decision s plan t r
  unfolding place
  place-Decision room w fresh c =
      place_by (arbitrate s.items (rank plan.priority) request active before) room fresh c (
        arbitrate-ArbitrationOf plan s.items (rank plan.priority) request active before
          (AllPass-indices (is_active_conflict plan) s.items) w tt)

-- What `schedule_at` decides once the time has advanced to `s`.
pub decide_at-Decision :
    (s : Scheduler) (request : ℕ) (plan : PlannedPerformance)
    → s.generation < u64_max
    → s.now_ms ≤ u64_max
    → request ≤ u64_max
    → plan.start_at_ms ≤ u64_max
    → IsConsistent s
    → (t : Scheduler) × (r : Result) × (decide_at s request plan ≡ some (t, r))
      × Decision s (arrive s request plan) t r
unfolding decide_at reject normalize_interrupt_points
decide_at-Decision s request plan room clock word start c =
    let arrived = arrive s request plan in
    let known = any (λ (item : ScheduledItem). item.plan.event_id == plan.event_id) s.items in
    let cool = ltb arrived.start_at_ms (unwrap_or (lookup arrived.asset_id s.cooldowns) 0) in
    elim (Bool-cases known) [
      | inl d ↦
          rw (d, decide_at)
            (record s { last_rejection = some duplicate_event }, err duplicate_event, refl, refl)
      | inr d ↦ elim (Bool-cases cool) [
        | inl k ↦
            rw (d, k, decide_at)
              (record s { last_rejection = some cooldown }, err cooldown, refl, refl)
        | inr k ↦
            rw (d, k, decide_at)
              (place-Decision s request arrived room (omega arith)
                (fresh_event plan.event_id s.items d) c)
      ]
    ]
