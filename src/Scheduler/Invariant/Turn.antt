-- ===== src/Scheduler/Invariant/Turn.antt =====
-- One turn of the loop of `advance_to`: it keeps the timeline, and settles the slot or retires it.
use aivtuber.Common.{
  ℕ, suc, ◌+◌, ◌≤◌, ◌<◌, ◌≡◌, ◌⊎◌, refl, sym, ◌∙◌, subst, inl, inr, Bool, true, false, none, some,
  length, get_elem?, leb, if◌then◌else◌, get_elem?-lt, set, get_elem?-set_self, get_elem?-set_ne,
  length-set, Bool-cases, arith,
}
use aivtuber.Common.Slots.{get_elem?-set}
use native.Mathlib.Decide.{ℕ_discrete}
use aivtuber.Scheduler.Data.{
  ScheduledItem, Status, queued, playing, completed, cancelled, Scheduler, end_at_ms,
  effective_end_ms,
}
use aivtuber.Scheduler.Advance.{
  retire, put_item, latest, cancels_before, cancels_early, finish_slot, advance_slot,
}
use aivtuber.Scheduler.Invariant.{
  TimelineOf, IsCounted, Untouched, Timeline-retire, Timeline-retire_written, Timeline-put_item,
  length-retire, retire-Untouched, retired_prefix,
}

-- What the sweep knows of an item that it has not reached.
abbrev pub Pending : ℕ → ℕ → ScheduledItem → Type 0
Pending target generation x =
    (((x.status ≡ queued) × (x.cancel_at_ms ≡ none))
      ⊎ ((x.status ≡ playing) × (x.plan.start_at_ms ≤ target)))
    × IsCounted generation x

-- What it knows of an item that it has passed: a queued one starts later, a playing one has
-- started and ends later.
abbrev pub Settled : ℕ → ScheduledItem → Type 0
Settled target x =
    ((x.status ≡ queued) × (x.cancel_at_ms ≡ none) × (target < x.plan.start_at_ms))
    ⊎ ((x.status ≡ playing) × (x.plan.start_at_ms ≤ target) × (target < effective_end_ms x))

pub record Swept (target generation : ℕ) (s : Scheduler) (index : ℕ) : Type 0 where
  pub timeline : TimelineOf (Pending target generation) s
  pub passed :
      (i : ℕ) (x : ScheduledItem) → i < index → get_elem? s.items i ≡ some x → Settled target x

-- A turn that retires the slot, and one that passes it.
abbrev pub Turn : ℕ → ℕ → Scheduler → ℕ → Scheduler → Bool → Type 0
Turn target generation s index t true =
    Swept target generation t index × (length t.items + 1 ≡ length s.items) × Untouched s t
Turn target generation s index t false =
    Swept target generation t (suc index) × (length t.items ≡ length s.items) × Untouched s t

effective_end_congr :
    (x y : ScheduledItem)
    → y.plan ≡ x.plan
    → y.cancel_at_ms ≡ x.cancel_at_ms
    → effective_end_ms y ≤ effective_end_ms x
unfolding effective_end_ms
effective_end_congr x y same cancel = rw (same, cancel) (omega arith)

module _ (target generation : ℕ) (s : Scheduler) (index : ℕ) (x : ScheduledItem)
    (at : get_elem? s.items index ≡ some x) (h : Swept target generation s index) where
  Turn-retire : (t : ℕ) → Turn target generation s index (retire s index t) true
  Turn-retire t = (
    record {
      timeline = Timeline-retire (Pending target generation) s index t x at h.timeline;
      passed = retired_prefix (Settled target) s index t at h.passed;
    },
    length-retire s index t at,
    retire-Untouched s index t,
  )

  -- The same where the item was written anew, under its plan, right before.
  Turn-written :
      (t : ℕ) (y : ScheduledItem)
      → y.plan ≡ x.plan
      → Turn target generation s index (retire (put_item s index y) index t) true
  unfolding put_item
  Turn-written t y same =
      let inside = get_elem?-lt s.items index at in
      let written = get_elem?-set_self s.items index y inside in
      (
        record {
          timeline =
              Timeline-retire_written (Pending target generation) s index t x y same at h.timeline;
          passed = retired_prefix (Settled target) (put_item s index y) index t written (λ i z lt g.
              h.passed i z lt (sym (get_elem?-set_ne s.items index i y (omega arith)) ∙ g));
        },
        length-retire (put_item s index y) index t written ∙ length-set s.items index y,
        let u = retire-Untouched (put_item s index y) index t in
            record {
              config = u.config;
              now_ms = u.now_ms;
              generation = u.generation;
              history = u.history;
            },
      )

  Turn-stay : Settled target x → Turn target generation s index s false
  Turn-stay ok = (
    record { timeline = h.timeline; passed = passed_stay },
    refl,
    record { config = refl; now_ms = refl; generation = refl; history = λ b. b },
  )
    where
      passed_stay :
          (i : ℕ) (z : ScheduledItem)
          → i < suc index
          → get_elem? s.items i ≡ some z
          → Settled target z
      passed_stay i z lt g = elim (ℕ_discrete i index) [
        | yes e ↦ let same : x ≡ z = cc (at, g, e) in subst (Settled target) same ok
        | no ne ↦ h.passed i z (omega arith) g
      ]

  Turn-start :
      (y : ScheduledItem)
      → y.plan ≡ x.plan
      → y.cancel_at_ms ≡ x.cancel_at_ms
      → Pending target generation y
      → Settled target y
      → Turn target generation s index (put_item s index y) false
  unfolding put_item
  Turn-start y same cancel pending ok = (
    record {
      timeline =
          Timeline-put_item (Pending target generation) s index x y same
            (effective_end_congr x y same cancel) pending at h.timeline;
      passed = passed_start;
    },
    length-set s.items index y,
    record { config = refl; now_ms = refl; generation = refl; history = λ b. b },
  )
    where
      passed_start :
          (i : ℕ) (z : ScheduledItem)
          → i < suc index
          → get_elem? (set s.items index y) i ≡ some z
          → Settled target z
      passed_start i z lt g = elim (get_elem?-set s.items index i y g) [
        | inl (_, e) ↦ subst (Settled target) e ok
        | inr (ne, old) ↦ h.passed i z (omega arith) old
      ]

-- The terminal transition writes the time of the last one, and nothing else that the sweep reads.
Turn-finish :
    (target generation : ℕ) (s : Scheduler) (index : ℕ) (x : ScheduledItem)
    → get_elem? s.items index ≡ some x
    → Swept target generation s index
    → Turn target generation s index (finish_slot s index x) true
unfolding finish_slot put_item
Turn-finish target generation s index x at h =
    let end = effective_end_ms x in
    let t = record s { last_terminal_at = some (latest s.last_terminal_at end) } in
    let status =
      if cancels_before x.cancel_at_ms (end_at_ms x.plan) then cancelled else completed in
    let (swept, len, same) =
      Turn-written target generation t index x at
        (record { timeline = h.timeline; passed = h.passed }) end (record x { status = status })
        refl in
    (
      record { timeline = swept.timeline; passed = swept.passed },
      len,
      record {
        config = same.config;
        now_ms = same.now_ms;
        generation = same.generation;
        history = same.history;
      },
    )

module _ (target generation : ℕ) (s : Scheduler) (index : ℕ) (x : ScheduledItem)
    (at : get_elem? s.items index ≡ some x) (h : Swept target generation s index) where
  Turn-playing :
      x.status ≡ playing
      → let (t, retired) = advance_slot playing s index x target in
        Turn target generation s index t retired
  unfolding advance_slot
  Turn-playing e =
      let pending = h.timeline.slots index x at in
      elim (Bool-cases (leb (effective_end_ms x) target)) [
        | inl b ↦ rw b (Turn-finish target generation s index x at h)
        | inr b ↦ rw b (Turn-stay target generation s index x at h (ground arith))
      ]

  Turn-queued :
      x.status ≡ queued
      → x.cancel_at_ms ≡ none
      → let (t, retired) = advance_slot queued s index x target in
        Turn target generation s index t retired
  unfolding advance_slot
  Turn-queued e none_yet =
      let pending = h.timeline.slots index x at in
      let none_early : cancels_early x.cancel_at_ms x.plan.start_at_ms target ≡ false =
        rw none_yet refl in
      elim (Bool-cases (leb x.plan.start_at_ms target)) [
        | inr b ↦ rw (none_early, b) (Turn-stay target generation s index x at h (ground arith))
        | inl b ↦ elim (Bool-cases (leb (effective_end_ms x) target)) [
          | inl c ↦ rw (none_early, b, c) (Turn-finish target generation s index x at h)
          | inr c ↦
              rw (none_early, b, c)
                (Turn-start target generation s index x at h (record x { status = playing }) refl
                  refl (ground arith)
                  (ground (arith, effective_end_congr (record x { status = playing }) x refl refl)))
        ]
      ]

-- One turn of the sweep, for each status of the slot.
pub turn :
    (target generation : ℕ) (s : Scheduler) (index : ℕ) (x : ScheduledItem)
    → get_elem? s.items index ≡ some x
    → Swept target generation s index
    → let (t, retired) = advance_slot x.status s index x target in
      Turn target generation s index t retired
turn target generation s index x at h = elim (h.timeline.slots index x at).0 [
  | inl (q, c) ↦ subst TurnAt (sym q) (Turn-queued target generation s index x at h q c)
  | inr (p, _) ↦ subst TurnAt (sym p) (Turn-playing target generation s index x at h p)
]
  where
    TurnAt : Status → Type 0
    TurnAt st =
        let (t, retired) = advance_slot st s index x target in
        Turn target generation s index t retired
