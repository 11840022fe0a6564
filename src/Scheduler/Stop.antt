-- ===== src/Scheduler/Stop.antt =====
-- crates/scheduler/src/lib.rs: the operator's stops, the completion of all work, and the read-only
-- views.
use aivtuber.Common.{
  ℕ, zero, suc, String, Bool, true, false, Option, none, some, List, [], ◌∷◌, ◌++◌, length,
  get_elem?, if◌then◌else◌, nat_eq, string_eq,
}
use aivtuber.Common.Map.{lookup}
use aivtuber.Scheduler.Data.{
  PlannedPerformance, ScheduledItem, Status, queued, playing, completed, cancelled, HistoryEntry,
  Scheduler, is_playing, effective_end_ms, occupies_timeline,
}
use aivtuber.Scheduler.Advance.{retire, put_item, latest, advance_to}
use aivtuber.Scheduler.Arbitrate.{cancel_queued}

-- The stop of a playing item, in `stop_all` and `stop_current`.
unfoldable pub stop_playing : Scheduler → ℕ → ScheduledItem → ℕ → Scheduler
stop_playing s index item at_ms =
    let t = put_item s index (record item { status = cancelled; cancel_at_ms = some at_ms }) in
    retire (record t { last_terminal_at = some (latest t.last_terminal_at at_ms) }) index at_ms

-- One turn of the loop of `stop_all`, and whether the slot was retired.
unfoldable pub stop_slot : Status → Scheduler → ℕ → ScheduledItem → ℕ → Scheduler × Bool
unfolding stop_playing
stop_slot playing s index item at_ms = (stop_playing s index item at_ms, true)
stop_slot queued s index item at_ms = (cancel_queued s index item at_ms, true)
stop_slot completed s index item at_ms = (s, false)
stop_slot cancelled s index item at_ms = (s, false)

-- `while index < self.items.len()`; each turn shortens the vector or raises the index.
unfoldable pub stop_loop :
    ℕ → Scheduler → ℕ → ℕ → List PlannedPerformance → Scheduler × List PlannedPerformance
unfolding stop_slot
stop_loop zero s index at_ms stopped = (s, stopped)
stop_loop (suc fuel) s index at_ms stopped = elim (get_elem? s.items index) [
  | none ↦ (s, stopped)
  | some item ↦
      let (t, retired) = stop_slot item.status s index item at_ms in
      stop_loop fuel t (if retired then index else suc index) at_ms
        (if retired then stopped ++ item.plan ∷ [] else stopped)
]

unfoldable pub stop_all : Scheduler → ℕ → Scheduler × List PlannedPerformance
unfolding stop_loop
stop_all s at_ms = let t = advance_to s at_ms in stop_loop (length t.items) t 0 at_ms []

-- `position(|item| item.status == Playing)`
unfoldable pub position_playing : ℕ → List ScheduledItem → Option (ℕ × ScheduledItem)
position_playing index [] = none
position_playing index (x ∷ xs) =
    let rest = position_playing (suc index) xs in
    if is_playing x.status then some (index, x) else rest

unfoldable pub stop_current : Scheduler → ℕ → Scheduler × Option PlannedPerformance
unfolding position_playing stop_playing
stop_current s at_ms =
    let t = advance_to s at_ms in
    elim (position_playing 0 t.items) [
      | none ↦ (t, none)
      | some (index, item) ↦ (stop_playing t index item at_ms, some item.plan)
    ]

-- The latest end of the work on the timeline.
unfoldable pub last_end : List ScheduledItem → Option ℕ
last_end [] = none
last_end (x ∷ xs) =
    let rest = last_end xs in
    if occupies_timeline x then some (latest rest (effective_end_ms x)) else rest

abbrev pub default_to : Option ℕ → ℕ → ℕ
default_to none d = d
default_to (some v) d = v

unfoldable pub complete_all : Scheduler → Scheduler
unfolding last_end
complete_all s = advance_to s (default_to (last_end s.items) s.now_ms)

unfoldable pub drain_history : Scheduler → Scheduler × List HistoryEntry
drain_history s = (record s { history = [] }, s.history)

unfoldable pub is_generation_live : Scheduler → ℕ → Bool
is_generation_live s generation = elim (lookup generation s.live_by_generation) [
  | none ↦ false
  | some _ ↦ true
]

unfoldable pub live_item_by_generation : Scheduler → ℕ → Option ScheduledItem
live_item_by_generation s generation = elim (lookup generation s.live_by_generation) [
  | none ↦ none
  | some index ↦ get_elem? s.items index
]

unfoldable pub live_item_by_event : Scheduler → String → Option ScheduledItem
live_item_by_event s event_id = elim (lookup event_id s.live_by_event) [
  | none ↦ none
  | some index ↦ get_elem? s.items index
]
