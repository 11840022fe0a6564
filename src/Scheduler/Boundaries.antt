-- ===== src/Scheduler/Boundaries.antt =====
-- crates/scheduler/src/lib.rs: `normalize_interrupt_points` and `next_safe_boundary`.
use aivtuber.Common.{
  ℕ, ◌-◌, ◌≤◌, ◌<◌, ◌≡◌, ◌⊎◌, ◌↔◌, inl, inr, refl, sym, subst, false, List, [], ◌∷◌, ◌&&◌, ltb, leb,
  eqb, eqb_iff, Bool-cases, arith,
}
use aivtuber.Common.Word.{saturating_add}
use aivtuber.Scheduler.Data.{
  PlannedPerformance, end_at_ms, find_boundary, next_safe_boundary, retain_points, insert_sorted,
  sort, dedup_after, dedup, normalize_interrupt_points,
}
use aivtuber.Scheduler.Invariant.Indices.{Has}

-- Strictly ascending from a bound.
abbrev pub AscendsAbove : ℕ → List ℕ → Type 0
AscendsAbove low [] = Unit
AscendsAbove low (x ∷ xs) = (low < x) × AscendsAbove x xs

abbrev pub StrictlyAscends : List ℕ → Type 0
StrictlyAscends [] = Unit
StrictlyAscends (x ∷ xs) = AscendsAbove x xs

abbrev AscendsFrom : ℕ → List ℕ → Type 0
AscendsFrom low [] = Unit
AscendsFrom low (x ∷ xs) = (low ≤ x) × AscendsFrom x xs

abbrev SortedList : List ℕ → Type 0
SortedList [] = Unit
SortedList (x ∷ xs) = AscendsFrom x xs

StrictlyAscends-tail : (x : ℕ) (l : List ℕ) → StrictlyAscends (x ∷ l) → StrictlyAscends l
StrictlyAscends-tail x [] a = tt
StrictlyAscends-tail x (y ∷ l) (lt, a) = a

saturating_add-monotone : (a m n : ℕ) → m ≤ n → saturating_add a m ≤ saturating_add a n
unfolding saturating_add
saturating_add-monotone a m n h = ground arith

insert_sorted-from :
    (low x : ℕ) (l : List ℕ) → low ≤ x → AscendsFrom low l → AscendsFrom low (insert_sorted x l)
unfolding insert_sorted
insert_sorted-from low x [] h a = (h, tt)
insert_sorted-from low x (y ∷ l) h (b, a) = elim (Bool-cases (leb x y)) [
  | inl t ↦ rw t (h, (ground arith, a))
  | inr f ↦ rw f (b, insert_sorted-from y x l (ground arith) a)
]

insert_sorted-SortedList : (x : ℕ) (l : List ℕ) → SortedList l → SortedList (insert_sorted x l)
unfolding insert_sorted
insert_sorted-SortedList x [] a = tt
insert_sorted-SortedList x (y ∷ l) a = elim (Bool-cases (leb x y)) [
  | inl t ↦ rw t (ground arith, a)
  | inr f ↦ rw f (insert_sorted-from y x l (ground arith) a)
]

sort-SortedList : (l : List ℕ) → SortedList (sort l)
unfolding sort
sort-SortedList [] = tt
sort-SortedList (x ∷ l) = insert_sorted-SortedList x (sort l) (sort-SortedList l)

dedup_after-AscendsAbove : (b : ℕ) (l : List ℕ) → AscendsFrom b l → AscendsAbove b (dedup_after b l)
unfolding dedup_after
dedup_after-AscendsAbove b [] a = tt
dedup_after-AscendsAbove b (x ∷ l) (le, a) = elim (Bool-cases (eqb b x)) [
  | inl t ↦
      let same : b ≡ x = (eqb_iff b x).0 t in
      rw t
        (subst (λ n. AscendsAbove n (dedup_after x l)) (sym same) (dedup_after-AscendsAbove x l a))
  | inr f ↦ rw f (ground arith, dedup_after-AscendsAbove x l a)
]

-- Sorting and deduplication keep the members.
Has-insert_sorted : (n x : ℕ) (l : List ℕ) → Has n (insert_sorted x l) ↔ ((x ≡ n) ⊎ Has n l)
unfolding insert_sorted
Has-insert_sorted n x [] = (λ h. h, λ h. h)
Has-insert_sorted n x (y ∷ l) = elim (Bool-cases (leb x y)) [
  | inl t ↦ rw t (λ h. h, λ h. h)
  | inr f ↦ let ih = Has-insert_sorted n x l in rw f (ground arith)
]

Has-sort : (n : ℕ) (l : List ℕ) → Has n (sort l) ↔ Has n l
unfolding sort
Has-sort n [] = (λ h. h, λ h. h)
Has-sort n (x ∷ l) =
    let ih = Has-sort n l in let ins = Has-insert_sorted n x (sort l) in ground arith

Has-dedup_after : (n b : ℕ) (l : List ℕ) → ((b ≡ n) ⊎ Has n (dedup_after b l)) ↔ ((b ≡ n) ⊎ Has n l)
unfolding dedup_after
Has-dedup_after n b [] = (λ h. h, λ h. h)
Has-dedup_after n b (x ∷ l) = elim (Bool-cases (eqb b x)) [
  | inl t ↦ let ih = Has-dedup_after n x l in rw t (ground arith)
  | inr f ↦ let ih = Has-dedup_after n x l in rw f (ground arith)
]

Has-dedup : (n : ℕ) (l : List ℕ) → Has n (dedup l) ↔ Has n l
unfolding dedup
Has-dedup n [] = (λ h. h, λ h. h)
Has-dedup n (x ∷ l) = Has-dedup_after n x l

Has-retain_points : (n d : ℕ) (l : List ℕ) → Has n (retain_points d l) ↔ (Has n l × (n ≤ d))
unfolding retain_points
Has-retain_points n d [] = (λ h. absurd h, λ h. h.0)
Has-retain_points n d (x ∷ l) = elim (Bool-cases (leb x d)) [
  | inl t ↦ let ih = Has-retain_points n d l in rw t (ground arith)
  | inr f ↦ let ih = Has-retain_points n d l in rw f (ground arith)
]

dedup-StrictlyAscends : (l : List ℕ) → SortedList l → StrictlyAscends (dedup l)
unfolding dedup
dedup-StrictlyAscends [] h = tt
dedup-StrictlyAscends (x ∷ l) h = dedup_after-AscendsAbove x l h

-- The interrupt points of an arriving plan are put in strictly ascending order, and are exactly
-- the given offsets that do not exceed the duration.
pub normalize_points :
    (p : PlannedPerformance)
    → StrictlyAscends (normalize_interrupt_points p).interrupt_points_ms
      × ((n : ℕ)
          → Has n (normalize_interrupt_points p).interrupt_points_ms
            ↔ (Has n p.interrupt_points_ms × (n ≤ p.duration_ms)))
unfolding normalize_interrupt_points
normalize_points p =
    let kept = retain_points p.duration_ms p.interrupt_points_ms in
    (
      dedup-StrictlyAscends (sort kept) (sort-SortedList kept),
      λ n.
          let a = Has-dedup n (sort kept) in
          let b = Has-sort n kept in
          let c = Has-retain_points n p.duration_ms p.interrupt_points_ms in ground arith,
    )

-- What a boundary is: the end of the plan, or an interrupt point at or after the request, inside
-- the plan, and not yet passed.
abbrev pub IsBoundary : PlannedPerformance → ℕ → List ℕ → ℕ → Type 0
IsBoundary p request l b =
    (b ≡ end_at_ms p)
    ⊎ ((offset : ℕ) × Has offset l
        × (b ≡ saturating_add p.start_at_ms offset)
        × (request - p.start_at_ms ≤ offset)
        × (request ≤ b)
        × (b < end_at_ms p))

IsBoundary-cons :
    (p : PlannedPerformance) (request o : ℕ) (l : List ℕ) (b : ℕ)
    → IsBoundary p request l b
    → IsBoundary p request (o ∷ l) b
IsBoundary-cons p request o l b (inl e) = inl e
IsBoundary-cons p request o l b (inr (n, m, a, b', c, d)) = inr (n, inr m, a, b', c, d)

find_boundary-IsBoundary :
    (p : PlannedPerformance) (request : ℕ) (l : List ℕ)
    → IsBoundary p request l (find_boundary p request (request - p.start_at_ms) l)
unfolding find_boundary
find_boundary-IsBoundary p request [] = inl refl
find_boundary-IsBoundary p request (o ∷ l) =
    let b = saturating_add p.start_at_ms o in
    let rest =
      IsBoundary-cons p request o l (find_boundary p request (request - p.start_at_ms) l)
        (find_boundary-IsBoundary p request l) in
    elim (Bool-cases (leb (request - p.start_at_ms) o && (leb request b && ltb b (end_at_ms p)))) [
      | inl t ↦ rw t (inr (o, inl refl, refl, ground arith, ground arith, ground arith))
      | inr f ↦ rw f rest
    ]

-- An offset that a boundary may stand at.
abbrev pub IsEligible : PlannedPerformance → ℕ → ℕ → Type 0
IsEligible p request offset =
    (request - p.start_at_ms ≤ offset)
    × (request ≤ saturating_add p.start_at_ms offset)
    × (saturating_add p.start_at_ms offset < end_at_ms p)

above-low : (low n : ℕ) (l : List ℕ) → AscendsAbove low l → Has n l → low < n
above-low low n [] a m = absurd m
above-low low n (x ∷ l) (lt, a) (inl e) = omega arith
above-low low n (x ∷ l) (lt, a) (inr m) = omega (arith, above-low x n l a m)

find_boundary-earliest :
    (p : PlannedPerformance) (request n : ℕ) (l : List ℕ)
    → StrictlyAscends l
    → Has n l
    → IsEligible p request n
    → find_boundary p request (request - p.start_at_ms) l ≤ saturating_add p.start_at_ms n
unfolding find_boundary
find_boundary-earliest p request n [] a m e = absurd m
find_boundary-earliest p request n (o ∷ l) a m e =
    elim (Bool-cases (
      leb (request - p.start_at_ms) o
      && (leb request (saturating_add p.start_at_ms o)
          && ltb (saturating_add p.start_at_ms o) (end_at_ms p)))) [
            | inl t ↦ rw t (elim m [
              | inl same ↦ saturating_add-monotone p.start_at_ms o n (omega (arith, same))
              | inr later ↦
                  saturating_add-monotone p.start_at_ms o n (omega (arith, above-low o n l a later))
            ])
            | inr f ↦ elim m [
              | inl same ↦ absurd (not_skipped same f)
              | inr later ↦
                  rw f (find_boundary-earliest p request n l (StrictlyAscends-tail o l a) later e)
            ]
          ]
  where
    not_skipped :
        o ≡ n
        → (leb (request - p.start_at_ms) o
            && (leb request (saturating_add p.start_at_ms o)
                && ltb (saturating_add p.start_at_ms o) (end_at_ms p)))
          ≡ false
        → ⊥
    not_skipped same f =
        let e' : IsEligible p request o = subst (IsEligible p request) (sym same) e in ground arith

-- The safe boundary of a plan is its end, or an interrupt point of the plan that lies at or after
-- the request and inside the plan; and with the interrupt points in strictly ascending order it is
-- no later than any interrupt point of that kind.
pub next_safe_boundary_lem :
    (p : PlannedPerformance) (request : ℕ)
    → IsBoundary p request p.interrupt_points_ms (next_safe_boundary p request)
      × (StrictlyAscends p.interrupt_points_ms
          → (n : ℕ) → Has n p.interrupt_points_ms
          → IsEligible p request n
          → next_safe_boundary p request ≤ saturating_add p.start_at_ms n)
unfolding next_safe_boundary
next_safe_boundary_lem p request = (
  find_boundary-IsBoundary p request p.interrupt_points_ms,
  λ a n m e. find_boundary-earliest p request n p.interrupt_points_ms a m e,
)
