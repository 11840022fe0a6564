-- ===== src/Scheduler/Rejections.antt =====
-- crates/scheduler/src/lib.rs, `schedule_at`: when a request is rejected.
use aivtuber.Common.{
  ℕ, zero, suc, ◌≤◌, ◌<◌, ◌≡◌, ◌↔◌, refl, sym, ◌∙◌, inl, inr, subst, Bool, true, false, none, some,
  List, [], ◌∷◌, String, get_elem?, any, ltb, ◌==◌, Bool-cases, beq_self, string_eq, nat_eq, arith,
}
use aivtuber.Common.Map.{lookup}
use aivtuber.Scheduler.Data.{
  PlannedPerformance, ScheduledItem, playing, Scheduler, Rejection, cooldown, priority,
  duplicate_event, rank, plans_conflict, unwrap_or, normalize_interrupt_points,
}
use aivtuber.Scheduler.Arbitrate.{
  err, Handoff, outranked, arbitrate, hand_off, indices_from, is_active_conflict,
}
use aivtuber.Scheduler.Schedule.{arrive, decide_at, place, reserve, reject, schedule_at}
use aivtuber.Scheduler.Invariant.Indices.{Has, AllPass, AllPass-indices, Has-indices}
use aivtuber.Scheduler.Requests.{at_request, at_request-Advanced}
use aivtuber.Scheduler.Invariant.{IsConsistent}

any_of_slot :
    (event_id : String) (xs : List ScheduledItem) (i : ℕ) (x : ScheduledItem)
    → get_elem? xs i ≡ some x
    → x.plan.event_id ≡ event_id
    → any (λ (item : ScheduledItem). item.plan.event_id == event_id) xs ≡ true
any_of_slot id [] i x g e = cc
any_of_slot id (y ∷ xs) zero x g e =
    let same : y ≡ x = cc g in
    let hit : (y.plan.event_id == id) ≡ true = rw (same, e) (beq_self id) in rw hit
any_of_slot id (y ∷ xs) (suc i) x g e = elim (Bool-cases (y.plan.event_id == id)) [
  | inl t ↦ rw t
  | inr f ↦ rw f (any_of_slot id xs i x g e)
]

-- A conflicting item of a better rank in the walk ends it.
arbitrate_outranked :
    (p : ScheduledItem → Bool) (items : List ScheduledItem) (incoming request i : ℕ)
    (x : ScheduledItem) (l : List ℕ) (h : Handoff)
    → AllPass p items l
    → Has i l
    → get_elem? items i ≡ some x
    → rank x.plan.priority < incoming
    → arbitrate items incoming request l h ≡ outranked
unfolding arbitrate
arbitrate_outranked p items incoming request i x [] h a m g lt = absurd m
arbitrate_outranked p items incoming request i x (j ∷ l) h ((y, at, _), a) m g lt =
    elim (Bool-cases (ltb (rank y.plan.priority) incoming)) [
      | inl b ↦ rw (at, arbitrate, b)
      | inr b ↦ elim m [
        | inl e ↦
            let same : y ≡ x = cc (at, g, e) in
            let worse : rank x.plan.priority < incoming → ⊥ =
              subst (λ (z : ScheduledItem). rank z.plan.priority < incoming → ⊥) same
                (λ less. ground arith) in
            absurd (worse lt)
        | inr rest ↦
            rw (at, arbitrate, b)
              (arbitrate_outranked p items incoming request i x l (hand_off h j y request) a rest g
                lt)
      ]
    ]

module _ (s : Scheduler) (request : ℕ) (plan : PlannedPerformance) (i : ℕ) (x : ScheduledItem) where
  -- A request for a new event, out of its asset's cooldown, is rejected for its priority if some
  -- playing item that conflicts with it has a better rank; it changes nothing else.
  pub priority_rejected :
      any
          (λ (item : ScheduledItem). item.plan.event_id == plan.event_id)
          (at_request s request).items
        ≡ false
      → unwrap_or (lookup plan.asset_id (at_request s request).cooldowns) 0 ≤ plan.start_at_ms
      → get_elem? (at_request s request).items i ≡ some x
      → x.status ≡ playing
      → plans_conflict x.plan plan ≡ true
      → rank x.plan.priority < rank plan.priority
      → schedule_at s request plan
        ≡ some (record (at_request s request) { last_rejection = some priority }, err priority)
  unfolding schedule_at decide_at reject place arrive normalize_interrupt_points plans_conflict
  priority_rejected new cool g on clash lt =
      let u = at_request s request in
      let p = arrive u request plan in
      let active = indices_from 0 (is_active_conflict p) u.items in
      let past : ltb p.start_at_ms (unwrap_or (lookup plan.asset_id u.cooldowns) 0) ≡ false =
        ground arith in
      let hit : is_active_conflict p x ≡ true = ground arith in
      let out =
        arbitrate_outranked (is_active_conflict p) u.items (rank plan.priority) request i x active
          (record {
            candidate_start = p.start_at_ms;
            handoff_terminal = none;
            pending_cancellations = [];
          })
          (AllPass-indices (is_active_conflict p) u.items)
          (Has-indices (is_active_conflict p) u.items i g hit) g lt in
      rw (new, past, decide_at, place, out)

slot_of_any :
    (event_id : String) (xs : List ScheduledItem)
    → any (λ (item : ScheduledItem). item.plan.event_id == event_id) xs ≡ true
    → (i : ℕ) × (x : ScheduledItem) × (get_elem? xs i ≡ some x) × (x.plan.event_id ≡ event_id)
slot_of_any id [] h = absurd (cc h)
slot_of_any id (y ∷ xs) h = elim (Bool-cases (y.plan.event_id == id)) [
  | inl t ↦ (0, y, refl, ground (arith, string_eq.same_iff y.plan.event_id id))
  | inr f ↦ let (i, x, at, named) = slot_of_any id xs (ground (arith, f)) in (suc i, x, at, named)
]

duplicate_refused :
    (s : Scheduler) (request : ℕ) (plan : PlannedPerformance)
    → any (λ (item : ScheduledItem). item.plan.event_id == plan.event_id) s.items ≡ true
    → decide_at s request plan
      ≡ some (record s { last_rejection = some duplicate_event }, err duplicate_event)
unfolding decide_at reject
duplicate_refused s request plan known = rw (known, decide_at)

module _ (s : Scheduler) (request : ℕ) (plan : PlannedPerformance) where
  -- Once the tests of the event and of the cooldown are passed, only the priority rejects.
  place_rejection :
      (plan : PlannedPerformance) {t : Scheduler} {x : Rejection}
      → place s request plan ≡ some (t, err x)
      → x ≡ priority
  unfolding place reserve reject
  place_rejection plan e = ground arith

  known_event :
      (t : Scheduler)
      → decide_at s request plan ≡ some (t, err duplicate_event)
      → any (λ (item : ScheduledItem). item.plan.event_id == plan.event_id) s.items ≡ true
  unfolding decide_at reject normalize_interrupt_points
  known_event t e =
      elim (Bool-cases
        (any (λ (item : ScheduledItem). item.plan.event_id == plan.event_id) s.items)) [
          | inl known ↦ known
          | inr new ↦
              let arrived = arrive s request plan in
              elim (Bool-cases
                (ltb arrived.start_at_ms (unwrap_or (lookup plan.asset_id s.cooldowns) 0))) [
                  | inl cold ↦
                      let said : decide_at s request plan ≡ some (reject s cooldown) =
                        rw (new, cold, decide_at) in
                      cc (sym said ∙ e)
                  | inr warm ↦
                      let said : decide_at s request plan ≡ place s request arrived =
                        rw (new, warm, decide_at) in
                      let other : duplicate_event ≡ priority =
                        place_rejection arrived (sym said ∙ e) in
                      cc other
                ]
        ]

-- On a consistent scheduler a request is rejected as a duplicate exactly if, at its time, the index
-- by event has a slot for its event, whatever its priority and its cooldown: the scan of the items
-- and the index agree, and no other test of a request gives this answer.
pub duplicate_rejected_iff :
    (s : Scheduler) (request : ℕ) (plan : PlannedPerformance)
    → IsConsistent s
    → ((t : Scheduler) × (schedule_at s request plan ≡ some (t, err duplicate_event)))
      ↔ ((i : ℕ) × (lookup plan.event_id (at_request s request).live_by_event ≡ some i))
unfolding schedule_at
duplicate_rejected_iff s request plan h =
    let u = at_request s request in
    let index = (at_request-Advanced s request h).consistent.by_event in
    (
      (λ (t, e).
          let (i, x, at, named) =
            slot_of_any plan.event_id u.items (known_event u request plan t e) in
          (i, subst (λ id. lookup id u.live_by_event ≡ some i) named (index.complete i x at))),
      (λ (i, f).
          let (x, at, named) = index.sound plan.event_id i f in
          (
            record u { last_rejection = some duplicate_event },
            duplicate_refused u request plan (any_of_slot plan.event_id u.items i x at named),
          )),
    )
