-- ===== src/Scheduler/Advance.antt =====
-- crates/scheduler/src/lib.rs: `retire`, `trim_history` and `advance_to`.
use aivtuber.Common.{
  ℕ, zero, suc, ◌-◌, max, Bool, true, false, ◌&&◌, Option, none, some, List, [], ◌∷◌, ◌++◌, length,
  get_elem?, set, swap_remove, ltb, leb, if◌then◌else◌, nat_eq, string_eq,
}
use aivtuber.Common.Map.{remove, retain}
use aivtuber.Common.Index.{reindex}
use aivtuber.Common.Word.{saturating_add}
use aivtuber.Scheduler.Data.{
  ScheduledItem, Status, queued, playing, completed, cancelled, HistoryPolicy, ring, retain_all,
  HistoryEntry, Scheduler, end_at_ms, effective_end_ms,
}

-- The loop of `trim_history`: the oldest entries leave while there are more than `capacity`.
unfoldable pub trim_ring : ℕ → List HistoryEntry → ℕ → List HistoryEntry × ℕ
trim_ring capacity [] evicted = ([], evicted)
trim_ring capacity (entry ∷ rest) evicted =
    let trimmed = trim_ring capacity rest (saturating_add evicted 1) in
    if ltb capacity (length (entry ∷ rest)) then trimmed else (entry ∷ rest, evicted)

unfoldable pub trim_by : HistoryPolicy → ℕ → List HistoryEntry → ℕ → List HistoryEntry × ℕ
unfolding trim_ring
trim_by retain_all capacity history evicted = (history, evicted)
trim_by ring capacity history evicted = trim_ring capacity history evicted

unfoldable pub trim_history : Scheduler → Scheduler
unfolding trim_by
trim_history s =
    let (history, evicted) =
      trim_by s.config.history_policy s.config.history_capacity s.history s.terminal_evicted in
    record s { history = history; terminal_evicted = evicted }

-- Steps of `retire` on the item that it removes: the indexes without the item, the record of it in
-- the history, and the indexes with the moved item.
unfoldable pub retire_item : Scheduler → ℕ → ℕ → ScheduledItem → Scheduler
unfolding trim_history
retire_item s index terminal_at item =
    let items = swap_remove s.items index in
    let entry : HistoryEntry = record {
      terminal_at_ms = terminal_at;
      scheduled_at_ms = item.plan.start_at_ms;
      item = item;
    } in
    let moved = get_elem? items index in
    let t = trim_history (record s {
      items = items;
      live_by_generation = remove item.plan.generation s.live_by_generation;
      live_by_event = remove item.plan.event_id s.live_by_event;
      history = s.history ++ entry ∷ [];
    }) in
    record t {
      live_by_generation =
          reindex (λ (x : ScheduledItem). x.plan.generation) moved index t.live_by_generation;
      live_by_event = reindex (λ (x : ScheduledItem). x.plan.event_id) moved index t.live_by_event;
    }

-- `swap_remove` panics at a slot that is not there; every caller has just read the slot.
unfoldable pub retire : Scheduler → ℕ → ℕ → Scheduler
unfolding retire_item
retire s index terminal_at = elim (get_elem? s.items index) [
  | none ↦ s
  | some item ↦ retire_item s index terminal_at item
]

-- `self.items[index] = item`, for the writes to fields of a slot.
unfoldable pub put_item : Scheduler → ℕ → ScheduledItem → Scheduler
put_item s index item = record s { items = set s.items index item }

-- `map_or(at, |previous| previous.max(at))`
abbrev pub latest : Option ℕ → ℕ → ℕ
latest none at_ms = at_ms
latest (some previous) at_ms = max previous at_ms

-- `cancel_at_ms.is_some_and(|cancel| cancel < bound)`
abbrev pub cancels_before : Option ℕ → ℕ → Bool
cancels_before none bound = false
cancels_before (some cancel) bound = ltb cancel bound

-- `cancel_at_ms.is_some_and(|cancel| cancel < start && cancel <= target)`
abbrev pub cancels_early : Option ℕ → ℕ → ℕ → Bool
cancels_early none start target = false
cancels_early (some cancel) start target = ltb cancel start && leb cancel target

-- The terminal transition of `advance_to`, shared by its two branches.
unfoldable pub finish_slot : Scheduler → ℕ → ScheduledItem → Scheduler
unfolding retire put_item
finish_slot s index item =
    let end = effective_end_ms item in
    let status =
      if cancels_before item.cancel_at_ms (end_at_ms item.plan) then cancelled else completed in
    let t = put_item s index (record item { status = status }) in
    retire (record t { last_terminal_at = some (latest t.last_terminal_at end) }) index end

-- One turn of the loop of `advance_to`; the Boolean tells whether the slot was retired, so that the
-- index stays.
unfoldable pub advance_slot : Status → Scheduler → ℕ → ScheduledItem → ℕ → Scheduler × Bool
unfolding finish_slot retire put_item
advance_slot playing s index item target =
    if leb (effective_end_ms item) target then (finish_slot s index item, true) else (s, false)
advance_slot queued s index item target =
    if cancels_early item.cancel_at_ms item.plan.start_at_ms target
    then (retire s index target, true)
    else if leb item.plan.start_at_ms target
    then if leb (effective_end_ms item) target
      then (finish_slot s index item, true)
      else (put_item s index (record item { status = playing }), false)
    else (s, false)
advance_slot completed s index item target = (s, false)
advance_slot cancelled s index item target = (s, false)

-- `while index < self.items.len()`. Each turn shortens the vector or raises the index, so as many
-- turns as there are items are enough.
unfoldable pub advance_loop : ℕ → Scheduler → ℕ → ℕ → Scheduler
unfolding advance_slot
advance_loop zero s index target = s
advance_loop (suc fuel) s index target = elim (get_elem? s.items index) [
  | none ↦ s
  | some item ↦
      let (t, retired) = advance_slot item.status s index item target in
      advance_loop fuel t (if retired then index else suc index) target
]

-- The part of `advance_to` before the loop.
unfoldable pub expire_cooldowns : Scheduler → ℕ → Scheduler
expire_cooldowns s target =
    let kept = retain (λ until. ltb target until) s.cooldowns in
    record s {
      cooldowns = kept;
      cooldowns_expired = saturating_add s.cooldowns_expired (length s.cooldowns - length kept);
    }

unfoldable pub advance_to : Scheduler → ℕ → Scheduler
unfolding expire_cooldowns advance_loop
advance_to s at_ms =
    let target = max at_ms s.now_ms in
    let t = expire_cooldowns s target in
    record (advance_loop (length t.items) t 0 target) { now_ms = target }
