-- ===== src/Scheduler/Invariant.antt =====
-- What holds of the scheduler's live collection between two operations, and the two steps that
-- every operation is made of: an item that is written anew, and an item that is retired.
pub mod Turn
pub mod Advance
pub mod Indices
pub mod Queue
pub mod Settle
pub mod Handoff
pub mod Cancel
pub mod Commit
pub mod Reserve
pub mod Place
use aivtuber.Common.{
  ℕ, suc, ◌+◌, ◌≤◌, ◌<◌, ◌≡◌, ◌⊎◌, ◌≢◌, refl, sym, ap, ◌∙◌, subst, inl, inr, Bool, true, false,
  String, Option, none, some, List, [], ◌∷◌, ◌++◌, length, get_elem?, set, swap_remove,
  get_elem?-lt, get_elem?-set_self, Option-cases, nat_eq, string_eq, arith,
}
use aivtuber.Common.Word.{saturating_add}
use aivtuber.Common.Map.{lookup, insert, remove}
use aivtuber.Common.Index.{Indexes, reindex, Indexes-swap_remove, Indexes-set}
use aivtuber.Common.Slots.{
  AllAt, PairwiseAt, AllAt-swap_remove, PairwiseAt-swap_remove, AllAt-set, PairwiseAt-set,
  length-swap_remove, swap_remove-set, get_elem?-swap_remove_ne,
}
use aivtuber.Scheduler.Data.{
  PlannedPerformance, ScheduledItem, Status, queued, playing, Scheduler, HistoryEntry,
  HistoryPolicy, ring, retain_all, effective_end_ms, plans_conflict,
}
use aivtuber.Scheduler.Advance.{trim_ring, trim_by, trim_history, retire_item, retire, put_item}

abbrev pub generation_of : ScheduledItem → ℕ
generation_of x = x.plan.generation

abbrev pub event_of : ScheduledItem → String
event_of x = x.plan.event_id

-- Two items that conflict do not overlap: one ends before the other starts.
abbrev pub Compatible : ScheduledItem → ScheduledItem → Type 0
Compatible x y =
    (plans_conflict x.plan y.plan ≡ false)
    ⊎ (effective_end_ms x ≤ y.plan.start_at_ms)
    ⊎ (effective_end_ms y ≤ x.plan.start_at_ms)

-- Both liveness indexes fit the items, every item has the property, and no two items clash.
pub record Timeline (P : ScheduledItem → Type 0) (items : List ScheduledItem)
    (generations : List (ℕ × ℕ)) (events : List (String × ℕ)) : Type 0 where
  pub by_generation : Indexes generation_of items generations
  pub by_event : Indexes event_of items events
  pub slots : AllAt P items
  pub compatible : PairwiseAt Compatible items

abbrev pub TimelineOf : (ScheduledItem → Type 0) → Scheduler → Type 0
TimelineOf P s = Timeline P s.items s.live_by_generation s.live_by_event

-- An item waits for its start, with no cancellation, or has started.
abbrev pub IsLive : ℕ → ScheduledItem → Type 0
IsLive now x =
    ((x.status ≡ queued) × (x.cancel_at_ms ≡ none) × (now < x.plan.start_at_ms))
    ⊎ ((x.status ≡ playing) × (x.plan.start_at_ms ≤ now))

abbrev pub IsCounted : ℕ → ScheduledItem → Type 0
IsCounted generation x = x.plan.generation ≤ generation

abbrev pub LiveItem : ℕ → ℕ → ScheduledItem → Type 0
LiveItem now generation x = IsLive now x × IsCounted generation x

-- The invariant of the scheduler.
abbrev pub IsConsistent : Scheduler → Type 0
IsConsistent s = TimelineOf (LiveItem s.now_ms s.generation) s

-- The retention policy: the ring never holds more than its capacity.
abbrev pub HistoryBounded : Scheduler → Type 0
HistoryBounded s =
    (s.config.history_policy ≡ retain_all) ⊎ (length s.history ≤ s.config.history_capacity)

-- What a retirement leaves alone, and that it keeps to the retention policy.
pub record Untouched (s t : Scheduler) : Type 0 where
  pub config : t.config ≡ s.config
  pub now_ms : t.now_ms ≡ s.now_ms
  pub generation : t.generation ≡ s.generation
  pub history : HistoryBounded s → HistoryBounded t

length-trim_ring :
    (capacity : ℕ) (history : List HistoryEntry) (evicted : ℕ)
    → length (trim_ring capacity history evicted).0 ≤ capacity
unfolding trim_ring
length-trim_ring capacity [] evicted = omega arith
length-trim_ring capacity (e ∷ l) evicted =
    ground (arith, length-trim_ring capacity l (saturating_add evicted 1))

trim_by-bounded :
    (policy : HistoryPolicy) (capacity : ℕ) (history : List HistoryEntry) (evicted : ℕ)
    → (policy ≡ retain_all) ⊎ (length (trim_by policy capacity history evicted).0 ≤ capacity)
unfolding trim_by
trim_by-bounded retain_all capacity history evicted = inl refl
trim_by-bounded ring capacity history evicted = inr (length-trim_ring capacity history evicted)

trim_history-HistoryBounded : (s : Scheduler) → HistoryBounded (trim_history s)
unfolding trim_history
trim_history-HistoryBounded s =
    trim_by-bounded s.config.history_policy s.config.history_capacity s.history s.terminal_evicted

pub Untouched-trans : (s t u : Scheduler) → Untouched s t → Untouched t u → Untouched s u
Untouched-trans s t u a b = record {
  config = b.config ∙ a.config;
  now_ms = b.now_ms ∙ a.now_ms;
  generation = b.generation ∙ a.generation;
  history = λ h. b.history (a.history h);
}

retire-retire_item :
    (s : Scheduler) (k t : ℕ) {x : ScheduledItem}
    → get_elem? s.items k ≡ some x
    → retire s k t ≡ retire_item s k t x
unfolding retire
retire-retire_item s k t g = rw (g, retire)

pub items-retire :
    (s : Scheduler) (k t : ℕ) {x : ScheduledItem}
    → get_elem? s.items k ≡ some x
    → (retire s k t).items ≡ swap_remove s.items k
unfolding retire_item
items-retire s k t g = ap (λ (u : Scheduler). u.items) (retire-retire_item s k t g)

pub length-retire :
    (s : Scheduler) (k t : ℕ) {x : ScheduledItem}
    → get_elem? s.items k ≡ some x
    → length (retire s k t).items + 1 ≡ length s.items
length-retire s k t g =
    rw (items-retire s k t g) (length-swap_remove s.items k (get_elem?-lt s.items k g))

pub retire-Untouched : (s : Scheduler) (k t : ℕ) → Untouched s (retire s k t)
unfolding retire retire_item
retire-Untouched s k t = elim (Option-cases (get_elem? s.items k)) [
  | inl e ↦
      rw (e, retire) (record { config = refl; now_ms = refl; generation = refl; history = λ b. b })
  | inr (x, e) ↦
      rw (e, retire)
        (record {
          config = refl;
          now_ms = refl;
          generation = refl;
          history = λ b. trim_history-HistoryBounded (record s {
            history =
                s.history
                ++ record { terminal_at_ms = t; scheduled_at_ms = x.plan.start_at_ms; item = x }
                  ∷ [];
          });
        })
]

Compatible-shrink_right :
    (z x y : ScheduledItem)
    → y.plan ≡ x.plan
    → effective_end_ms y ≤ effective_end_ms x
    → Compatible z x
    → Compatible z y
Compatible-shrink_right z x y same ends c = rw same (ground arith)

Compatible-shrink_left :
    (x y z : ScheduledItem)
    → y.plan ≡ x.plan
    → effective_end_ms y ≤ effective_end_ms x
    → Compatible x z
    → Compatible y z
Compatible-shrink_left x y z same ends c = rw same (ground arith)

module _ (P : ScheduledItem → Type 0) (s : Scheduler) (k t : ℕ) (x : ScheduledItem) where
  Timeline-retire_item :
      get_elem? s.items k ≡ some x → TimelineOf P s → TimelineOf P (retire_item s k t x)
  unfolding retire_item
  Timeline-retire_item g h =
      let inside = get_elem?-lt s.items k g in
      record {
        by_generation =
            Indexes-swap_remove generation_of s.items s.live_by_generation k x g h.by_generation;
        by_event = Indexes-swap_remove event_of s.items s.live_by_event k x g h.by_event;
        slots = AllAt-swap_remove P s.items k inside h.slots;
        compatible = PairwiseAt-swap_remove Compatible s.items k inside h.compatible;
      }

  -- Retiring an item keeps the timeline.
  pub Timeline-retire : get_elem? s.items k ≡ some x → TimelineOf P s → TimelineOf P (retire s k t)
  Timeline-retire g h = rw (retire-retire_item s k t g) (Timeline-retire_item g h)

  -- So does writing the item anew, under the same plan, right before.
  pub Timeline-retire_written :
      (y : ScheduledItem)
      → y.plan ≡ x.plan
      → get_elem? s.items k ≡ some x
      → TimelineOf P s
      → TimelineOf P (retire (put_item s k y) k t)
  unfolding put_item retire_item
  Timeline-retire_written y same g h =
      let inside = get_elem?-lt s.items k g in
      let written = get_elem?-set_self s.items k y inside in
      let gone = swap_remove-set s.items k y inside in
      rw (retire-retire_item (put_item s k y) k t written, gone, same) (Timeline-retire_item g h)

-- An item that is written anew under the same plan, and ends no later.
pub Timeline-put_item :
    (P : ScheduledItem → Type 0) (s : Scheduler) (k : ℕ) (x y : ScheduledItem)
    → y.plan ≡ x.plan
    → effective_end_ms y ≤ effective_end_ms x
    → P y
    → get_elem? s.items k ≡ some x
    → TimelineOf P s
    → TimelineOf P (put_item s k y)
unfolding put_item
Timeline-put_item P s k x y same ends py g h = record {
  by_generation =
      Indexes-set generation_of s.items s.live_by_generation k x y g
        (ap (λ (p : PlannedPerformance). p.generation) same) h.by_generation;
  by_event =
      Indexes-set event_of s.items s.live_by_event k x y g
        (ap (λ (p : PlannedPerformance). p.event_id) same) h.by_event;
  slots = AllAt-set P s.items k y py h.slots;
  compatible =
      PairwiseAt-set Compatible s.items k y
        (λ i z gz ne. (
          Compatible-shrink_right z x y same ends (h.compatible i k z x gz g ne),
          Compatible-shrink_left x y z same ends (h.compatible k i x z g gz (λ e. ne (sym e))),
        ))
        h.compatible;
}

-- The slots below the retired one keep their items.
pub retired_prefix :
    (Q : ScheduledItem → Type 0) (s : Scheduler) (k t : ℕ) {x : ScheduledItem}
    → get_elem? s.items k ≡ some x
    → ((i : ℕ) (z : ScheduledItem) → i < k → get_elem? s.items i ≡ some z → Q z)
    → (i : ℕ) (z : ScheduledItem) → i < k
    → get_elem? (retire s k t).items i ≡ some z
    → Q z
retired_prefix Q s k t g all i z lt gz =
    let inside = get_elem?-lt s.items k g in
    let gz' = subst (λ xs. get_elem? xs i ≡ some z) (items-retire s k t g) gz in
    all i z lt (sym (get_elem?-swap_remove_ne s.items k i inside (omega arith) (omega arith)) ∙ gz')
