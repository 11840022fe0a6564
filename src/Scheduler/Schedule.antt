-- ===== src/Scheduler/Schedule.antt =====
-- crates/scheduler/src/lib.rs: the queue of `schedule_at`, its entry into the timeline, and
-- `schedule`. `none` stands for a panic at an index, or for fuel that ran out.
use aivtuber.Common.{
  ℕ, zero, suc, max, Bool, true, false, ◌&&◌, Option, none, some, List, [], ◌∷◌, ◌++◌, length,
  get_elem?, any, ltb, leb, ◌==◌, if◌then◌else◌, nat_eq, string_eq,
}
use aivtuber.Common.Map.{lookup, insert}
use aivtuber.Common.Word.{saturating_add}
use aivtuber.Scheduler.Data.{
  PlannedPerformance, ScheduledItem, queued, playing, Scheduler, Rejection, cooldown, priority,
  duplicate_event, rank, is_operator, is_queued, end_at_ms, effective_end_ms, unwrap_or,
  plans_conflict, intervals_overlap, normalize_interrupt_points,
}
use aivtuber.Scheduler.Advance.{advance_to}
use aivtuber.Scheduler.Arbitrate.{
  Result, ok, err, Handoff, yields, outranked, panic, cancel_queued, indices_from, reverse_onto,
  is_active_conflict, arbitrate, apply_cancellations, spaced_start,
}

-- The three filters on a queued reservation.
abbrev pub blocks : PlannedPerformance → ScheduledItem → Bool
blocks plan item =
    is_queued item.status
    && (plans_conflict item.plan plan
        && intervals_overlap plan.start_at_ms (end_at_ms plan) item.plan.start_at_ms
            (effective_end_ms item))

-- A plan that must wait for a reservation of its rank or better.
unfoldable pub defer_behind : Scheduler → PlannedPerformance → ScheduledItem → PlannedPerformance
defer_behind s plan item =
    let start = max plan.start_at_ms (effective_end_ms item) in
    record plan {
      start_at_ms =
          if is_operator plan.priority
          then start
          else saturating_add start s.config.min_reaction_spacing_ms;
    }

-- `for index in queued_indices`, with the flag `changed`.
unfoldable pub resolve_batch :
    ℕ
    → List ℕ
    → Scheduler
    → PlannedPerformance
    → Bool
    → Option (Scheduler × PlannedPerformance × Bool)
unfolding defer_behind
resolve_batch request [] s plan changed = some (s, plan, changed)
resolve_batch request (index ∷ rest) s plan changed = elim (get_elem? s.items index) [
  | none ↦ none
  | some item ↦ elim (ltb (rank plan.priority) (rank item.plan.priority)) [
    | true ↦ resolve_batch request rest (cancel_queued s index item request) plan true
    | false ↦ resolve_batch request rest s (defer_behind s plan item) true
  ]
]

-- `loop` over the overlapping reservations.
unfoldable pub resolve_queue :
    ℕ → ℕ → Scheduler → PlannedPerformance → Option (Scheduler × PlannedPerformance)
unfolding resolve_batch indices_from reverse_onto
resolve_queue zero request s plan = none
resolve_queue (suc fuel) request s plan =
    elim (reverse_onto (indices_from 0 (blocks plan) s.items) []) [
      | [] ↦ some (s, plan)
      | index ∷ rest ↦ elim (resolve_batch request (index ∷ rest) s plan false) [
        | none ↦ none
        | some (t, deferred, changed) ↦ elim changed [
          | true ↦ resolve_queue fuel request t deferred
          | false ↦ some (t, deferred)
        ]
      ]
    ]

-- The accepted plan: its generation, status, cooldown and slot.
unfoldable pub commit : Scheduler → PlannedPerformance → Scheduler × PlannedPerformance
commit s p =
    let generation = saturating_add s.generation 1 in
    let plan = record p { generation = generation } in
    let status = if leb plan.start_at_ms s.now_ms then playing else queued in
    let until = saturating_add (end_at_ms plan) s.config.min_reaction_spacing_ms in
    let cooldowns = insert plan.asset_id until s.cooldowns in
    let index = length s.items in
    (
      record s {
        items = s.items ++ record { plan = plan; status = status; cancel_at_ms = none } ∷ [];
        live_by_generation = insert plan.generation index s.live_by_generation;
        live_by_event = insert plan.event_id index s.live_by_event;
        cooldowns = cooldowns;
        cooldowns_high_water = max s.cooldowns_high_water (length cooldowns);
        generation = generation;
      },
      plan,
    )

unfoldable pub reject : Scheduler → Rejection → Scheduler × Result
reject s r = (record s { last_rejection = some r }, err r)

-- The queue and the commit, for a plan that has its candidate start.
unfoldable pub reserve : Scheduler → ℕ → PlannedPerformance → Option (Scheduler × Result)
unfolding commit resolve_queue
reserve s request plan = elim (resolve_queue (suc (length s.items)) request s plan) [
  | none ↦ none
  | some (t, placed) ↦ let (u, accepted) = commit t placed in some (u, ok accepted)
]

-- The decision against playing work, the cancellations at safe points, and the candidate start.
unfoldable pub place : Scheduler → ℕ → PlannedPerformance → Option (Scheduler × Result)
unfolding reserve arbitrate apply_cancellations spaced_start indices_from reject
place s request plan =
    let active = indices_from 0 (is_active_conflict plan) s.items in
    let start : Handoff = record {
      candidate_start = plan.start_at_ms;
      handoff_terminal = none;
      pending_cancellations = [];
    } in
    elim (arbitrate s.items (rank plan.priority) request active start) [
      | panic ↦ none
      | outranked ↦ some (reject s priority)
      | yields h ↦ elim (apply_cancellations h.pending_cancellations s) [
        | none ↦ none
        | some t ↦ reserve t request (record plan { start_at_ms = spaced_start t plan h })
      ]
    ]

-- The request at its arrival time, with its interrupt points in order.
unfoldable pub arrive : Scheduler → ℕ → PlannedPerformance → PlannedPerformance
arrive s request plan =
    normalize_interrupt_points
      (record plan { start_at_ms = max (max plan.start_at_ms request) s.now_ms })

-- What `schedule_at` does once the logical time has advanced.
unfoldable pub decide_at : Scheduler → ℕ → PlannedPerformance → Option (Scheduler × Result)
unfolding arrive place reject
decide_at s request plan =
    let arrived = arrive s request plan in
    if any (λ (item : ScheduledItem). item.plan.event_id == plan.event_id) s.items
    then some (reject s duplicate_event)
    else if ltb arrived.start_at_ms (unwrap_or (lookup arrived.asset_id s.cooldowns) 0)
    then some (reject s cooldown)
    else place s request arrived

unfoldable pub schedule_at : Scheduler → ℕ → PlannedPerformance → Option (Scheduler × Result)
unfolding decide_at
schedule_at s request plan =
    decide_at (advance_to (record s { last_rejection = none }) request) request plan

unfoldable pub schedule : Scheduler → PlannedPerformance → Option (Scheduler × Result)
schedule s plan = schedule_at s plan.start_at_ms plan
