-- ===== src/Scheduler/Invariant/Handoff.antt =====
-- The arbitration of `schedule_at` against playing work: it never panics, and after the safe-point
-- cancellations no conflicting playing item outlasts the candidate start.
use aivtuber.Common.{
  ℕ, ◌-◌, ◌≤◌, ◌≡◌, ◌⊎◌, inl, inr, refl, subst, true, some, List, [], ◌∷◌, ◌++◌, get_elem?, ltb,
  Bool-cases, arith,
}
use aivtuber.Common.Word.{u64_max, saturating_add-le_max}
use aivtuber.Scheduler.Data.{
  PlannedPerformance, ScheduledItem, playing, rank, end_at_ms, next_safe_boundary, find_boundary,
}
use aivtuber.Scheduler.Arbitrate.{
  Handoff, Arbitration, yields, outranked, panic, boundary_of, hand_off, arbitrate,
  is_active_conflict,
}
use aivtuber.Scheduler.Invariant.Indices.{Has, AllPass}

-- A pair in the list of pending cancellations.
abbrev pub HasPair : ℕ → ℕ → List (ℕ × ℕ) → Type 0
HasPair i b [] = ⊥
HasPair i b (e ∷ l) = ((e.0 ≡ i) × (e.1 ≡ b)) ⊎ HasPair i b l

HasPair-append_left : (i b : ℕ) (l m : List (ℕ × ℕ)) → HasPair i b l → HasPair i b (l ++ m)
HasPair-append_left i b [] m h = absurd h
HasPair-append_left i b (e ∷ l) m (inl h) = inl h
HasPair-append_left i b (e ∷ l) m (inr h) = inr (HasPair-append_left i b l m h)

HasPair-append_right : (i b : ℕ) (l m : List (ℕ × ℕ)) → HasPair i b m → HasPair i b (l ++ m)
HasPair-append_right i b [] m h = h
HasPair-append_right i b (e ∷ l) m h = inr (HasPair-append_right i b l m h)

-- Every pending cancellation is at the slot of a playing item.
abbrev pub PairsPlaying : List ScheduledItem → List (ℕ × ℕ) → Type 0
PairsPlaying xs [] = Unit
PairsPlaying xs (e ∷ l) =
    ((x : ScheduledItem) × (get_elem? xs e.0 ≡ some x) × (x.status ≡ playing)) × PairsPlaying xs l

PairsPlaying-append :
    (xs : List ScheduledItem) (l m : List (ℕ × ℕ))
    → PairsPlaying xs l
    → PairsPlaying xs m
    → PairsPlaying xs (l ++ m)
PairsPlaying-append xs [] m a b = b
PairsPlaying-append xs (e ∷ l) m (x, a) b = (x, PairsPlaying-append xs l m a b)

-- The handoff covers the item at slot `i`: the start waits for its boundary, and a boundary inside
-- the item is a pending cancellation.
abbrev pub Covers : ℕ → ℕ → ScheduledItem → Handoff → Type 0
Covers request i x h =
    (boundary_of x.plan request ≤ h.candidate_start)
    × ((end_at_ms x.plan ≤ boundary_of x.plan request)
        ⊎ HasPair i (boundary_of x.plan request) h.pending_cancellations)

-- What a walk keeps: the start only grows, and no cancellation is lost.
pub record Extends (h k : Handoff) : Type 0 where
  pub start : h.candidate_start ≤ k.candidate_start
  pub kept : (i b : ℕ) → HasPair i b h.pending_cancellations → HasPair i b k.pending_cancellations

module _ (h : Handoff) (i : ℕ) (x : ScheduledItem) (request : ℕ) where
  hand_off-Extends : Extends h (hand_off h i x request)
  unfolding hand_off
  hand_off-Extends = record {
    start = omega arith;
    kept = λ j b m. elim (Bool-cases (ltb (boundary_of x.plan request) (end_at_ms x.plan))) [
      | inl t ↦ rw t (HasPair-append_left j b h.pending_cancellations _ m)
      | inr f ↦ rw f m
    ];
  }

  hand_off-Covers : Covers request i x (hand_off h i x request)
  unfolding hand_off
  hand_off-Covers = (
    omega arith,
    elim (Bool-cases (ltb (boundary_of x.plan request) (end_at_ms x.plan))) [
      | inl t ↦ rw t (
          inr (
            HasPair-append_right i (boundary_of x.plan request) h.pending_cancellations
              ((i, boundary_of x.plan request) ∷ []) (inl (refl, refl))))
      | inr f ↦ inl (ground arith)
    ],
  )

  hand_off-PairsPlaying :
      (xs : List ScheduledItem)
      → get_elem? xs i ≡ some x
      → x.status ≡ playing
      → PairsPlaying xs h.pending_cancellations
      → PairsPlaying xs (hand_off h i x request).pending_cancellations
  unfolding hand_off
  hand_off-PairsPlaying xs at playing_x p =
      let boundary = boundary_of x.plan request in
      elim (Bool-cases (ltb boundary (end_at_ms x.plan))) [
        | inl t ↦ rw t (
            PairsPlaying-append xs h.pending_cancellations ((i, boundary) ∷ []) p
              ((x, at, playing_x), tt))
        | inr f ↦ rw f p
      ]

-- The boundary of an item lies in a word.
find_boundary-le_max :
    (p : PlannedPerformance) (request elapsed : ℕ) (l : List ℕ)
    → find_boundary p request elapsed l ≤ u64_max
unfolding find_boundary end_at_ms
find_boundary-le_max p request elapsed [] = saturating_add-le_max p.start_at_ms p.duration_ms
find_boundary-le_max p request elapsed (o ∷ l) =
    ground (arith, find_boundary-le_max p request elapsed l, saturating_add-le_max p.start_at_ms o)

boundary_of-le_max : (p : PlannedPerformance) (request : ℕ) → boundary_of p request ≤ u64_max
unfolding boundary_of next_safe_boundary end_at_ms
boundary_of-le_max p request = ground (
  arith,
  saturating_add-le_max p.start_at_ms p.duration_ms,
  find_boundary-le_max p request (request - p.start_at_ms) p.interrupt_points_ms,
)

hand_off_word :
    (h : Handoff) (i : ℕ) (x : ScheduledItem) (request : ℕ)
    → h.candidate_start ≤ u64_max
    → (hand_off h i x request).candidate_start ≤ u64_max
unfolding hand_off
hand_off_word h i x request w = omega (arith, w, boundary_of-le_max x.plan request)

-- What the walk over the conflicting playing items returns, if no item outranks the plan.
pub record Arbitrated (items : List ScheduledItem) (request : ℕ) (l : List ℕ) (h k : Handoff)
    : Type 0 where
  pub extends : Extends h k
  pub covers :
      (i : ℕ) (x : ScheduledItem) → Has i l → get_elem? items i ≡ some x → Covers request i x k
  pub inside : PairsPlaying items k.pending_cancellations
  pub word : k.candidate_start ≤ u64_max

abbrev pub ArbitrationOf : List ScheduledItem → ℕ → List ℕ → Handoff → Arbitration → Type 0
ArbitrationOf items request l h (yields k) = Arbitrated items request l h k
ArbitrationOf items request l h outranked = Unit
ArbitrationOf items request l h panic = ⊥

Extends-trans : (h k m : Handoff) → Extends h k → Extends k m → Extends h m
Extends-trans h k m a b = record {
  start = omega (arith, a.start, b.start);
  kept = λ i c p. b.kept i c (a.kept i c p);
}

-- One more item in front of a walk.
ArbitrationOf-cons :
    (items : List ScheduledItem) (request i : ℕ) (l : List ℕ) (h : Handoff) (x : ScheduledItem)
    → get_elem? items i ≡ some x
    → (r : Arbitration) → ArbitrationOf items request l (hand_off h i x request) r
    → ArbitrationOf items request (i ∷ l) h r
ArbitrationOf-cons items request i l h x at panic a = a
ArbitrationOf-cons items request i l h x at outranked a = a
ArbitrationOf-cons items request i l h x at (yields k) a = record {
  extends = Extends-trans h (hand_off h i x request) k (hand_off-Extends h i x request) a.extends;
  covers = cover;
  inside = a.inside;
  word = a.word;
}
  where
    cover :
        (j : ℕ) (y : ScheduledItem)
        → (i ≡ j) ⊎ Has j l
        → get_elem? items j ≡ some y
        → Covers request j y k
    cover j y (inr m) g = a.covers j y m g
    cover j y (inl e) g =
        let same : x ≡ y = cc (at, g, e) in
        let (b, c) = hand_off-Covers h i x request in
        subst (λ z. Covers request j z k) same
          (subst (λ n. Covers request n x k) e
            (
              omega (arith, b, a.extends.start),
              elim c [
                | inl d ↦ inl d
                | inr d ↦ inr (a.extends.kept i (boundary_of x.plan request) d)
              ],
            ))

playing_of_conflict :
    (plan : PlannedPerformance) (x : ScheduledItem)
    → is_active_conflict plan x ≡ true
    → x.status ≡ playing
playing_of_conflict plan x h = ground arith

-- The walk over the conflicting playing items.
pub arbitrate-ArbitrationOf :
    (plan : PlannedPerformance) (items : List ScheduledItem) (incoming request : ℕ) (l : List ℕ)
    (h : Handoff)
    → AllPass (is_active_conflict plan) items l
    → h.candidate_start ≤ u64_max
    → PairsPlaying items h.pending_cancellations
    → ArbitrationOf items request l h (arbitrate items incoming request l h)
unfolding arbitrate
arbitrate-ArbitrationOf plan items incoming request [] h a w n = record {
  extends = record { start = omega arith; kept = λ i b m. m };
  covers = λ i x m g. absurd m;
  inside = n;
  word = w;
}
arbitrate-ArbitrationOf plan items incoming request (i ∷ l) h ((x, at, c), a) w n =
    let next = hand_off h i x request in
    let on = hand_off-PairsPlaying h i x request items at (playing_of_conflict plan x c) n in
    elim (Bool-cases (ltb (rank x.plan.priority) incoming)) [
      | inl r ↦ rw (at, arbitrate, r) tt
      | inr r ↦
          rw (at, arbitrate, r)
            (ArbitrationOf-cons items request i l h x at (arbitrate items incoming request l next) (
              arbitrate-ArbitrationOf plan items incoming request l next a
                (hand_off_word h i x request w) on))
    ]
