-- ===== src/Scheduler/Invariant/Indices.antt =====
-- The lists of slots that `schedule_at` walks: which slots they hold, and in which order.
use aivtuber.Common.{
  ℕ, zero, suc, ◌+◌, ◌≤◌, ◌<◌, ◌≡◌, ◌⊎◌, inl, inr, subst, Bool, true, some, List, [], ◌∷◌,
  get_elem?, length, Bool-cases, arith,
}
use native.Mathlib.Nat.{zero-add}
use aivtuber.Scheduler.Data.{ScheduledItem}
use aivtuber.Scheduler.Arbitrate.{indices_from, reverse_onto}

abbrev pub Has : ℕ → List ℕ → Type 0
Has i [] = ⊥
Has i (x ∷ xs) = (x ≡ i) ⊎ Has i xs

-- Each index is below the one before it, the first below the bound.
abbrev pub Descends : ℕ → List ℕ → Type 0
Descends bound [] = Unit
Descends bound (x ∷ xs) = (x < bound) × Descends x xs

abbrev Ascends : ℕ → ℕ → List ℕ → Type 0
Ascends low high [] = low ≤ high
Ascends low high (x ∷ xs) = (low ≤ x) × (x < high) × Ascends (suc x) high xs

-- The slots of the list hold items that pass the test.
abbrev pub AllPass : (ScheduledItem → Bool) → List ScheduledItem → List ℕ → Type 0
AllPass p xs [] = Unit
AllPass p xs (i ∷ is) =
    ((x : ScheduledItem) × (get_elem? xs i ≡ some x) × (p x ≡ true)) × AllPass p xs is

Ascends-lower :
    (low low' high : ℕ) (l : List ℕ) → low' ≤ low → Ascends low high l → Ascends low' high l
Ascends-lower low low' high [] h a = omega arith
Ascends-lower low low' high (x ∷ l) h (b, c, a) = (omega arith, c, a)

Ascends-indices_from :
    (n high : ℕ) (p : ScheduledItem → Bool) (xs : List ScheduledItem)
    → n + length xs ≤ high
    → Ascends n high (indices_from n p xs)
unfolding indices_from
Ascends-indices_from n high p [] h = omega arith
Ascends-indices_from n high p (x ∷ xs) h =
    let rest = Ascends-indices_from (suc n) high p xs (omega arith) in
    elim (Bool-cases (p x)) [
      | inl t ↦ rw t (omega arith, omega arith, rest)
      | inr f ↦ rw f (Ascends-lower (suc n) n high (indices_from (suc n) p xs) (omega arith) rest)
    ]

Descends-raise : (low high : ℕ) (l : List ℕ) → low ≤ high → Descends low l → Descends high l
Descends-raise low high [] h d = tt
Descends-raise low high (x ∷ l) h (b, d) = (omega arith, d)

-- The reverse of an ascending list descends.
Descends-reverse_onto :
    (low high : ℕ) (l out : List ℕ)
    → Ascends low high l
    → Descends low out
    → Descends high (reverse_onto l out)
unfolding reverse_onto
Descends-reverse_onto low high [] out a d = Descends-raise low high out a d
Descends-reverse_onto low high (x ∷ l) out (b, c, a) d =
    Descends-reverse_onto (suc x) high l (x ∷ out) a (omega arith, Descends-raise low x out b d)

AllPass-reverse_onto :
    (p : ScheduledItem → Bool) (xs : List ScheduledItem) (l out : List ℕ)
    → AllPass p xs l
    → AllPass p xs out
    → AllPass p xs (reverse_onto l out)
unfolding reverse_onto
AllPass-reverse_onto p xs [] out a b = b
AllPass-reverse_onto p xs (i ∷ l) out (h, a) b = AllPass-reverse_onto p xs l (i ∷ out) a (h, b)

Has-reverse_onto : (i : ℕ) (l out : List ℕ) → Has i l ⊎ Has i out → Has i (reverse_onto l out)
unfolding reverse_onto
Has-reverse_onto i [] out (inl h) = absurd h
Has-reverse_onto i [] out (inr h) = h
Has-reverse_onto i (x ∷ l) out (inl (inl e)) = Has-reverse_onto i l (x ∷ out) (inr (inl e))
Has-reverse_onto i (x ∷ l) out (inl (inr h)) = Has-reverse_onto i l (x ∷ out) (inl h)
Has-reverse_onto i (x ∷ l) out (inr h) = Has-reverse_onto i l (x ∷ out) (inr (inr h))

AllPass-shift :
    (n : ℕ) (p : ScheduledItem → Bool) (xs whole : List ScheduledItem)
    → ((i : ℕ) → get_elem? whole (n + i) ≡ get_elem? xs i)
    → AllPass p whole (indices_from n p xs)
unfolding indices_from
AllPass-shift n p [] whole h = tt
AllPass-shift n p (x ∷ xs) whole h =
    let rest =
      AllPass-shift (suc n) p xs whole
        (λ i. subst (λ j. get_elem? whole j ≡ get_elem? xs i) (omega arith) (h (suc i))) in
    elim (Bool-cases (p x)) [
      | inl t ↦ rw t ((x, subst (λ j. get_elem? whole j ≡ some x) (omega arith) (h 0), t), rest)
      | inr f ↦ rw f rest
    ]

-- Every slot that passes is in the list.
pub Has-indices_from :
    (n : ℕ) (p : ScheduledItem → Bool) (xs : List ScheduledItem) (i : ℕ) {x : ScheduledItem}
    → get_elem? xs i ≡ some x
    → p x ≡ true
    → Has (n + i) (indices_from n p xs)
unfolding indices_from
Has-indices_from n p [] i g t = cc
Has-indices_from n p (y ∷ xs) zero {x} g t =
    let same : p y ≡ true = cc (g, t) in rw same (inl (omega arith))
Has-indices_from n p (y ∷ xs) (suc i) g t =
    let rest =
      subst (λ j. Has j (indices_from (suc n) p xs)) (omega arith)
        (Has-indices_from (suc n) p xs i g t) in
    elim (Bool-cases (p y)) [ inl b ↦ rw b (inr rest) | inr b ↦ rw b rest ]

module _ (p : ScheduledItem → Bool) (xs : List ScheduledItem) where
  pub AllPass-indices : AllPass p xs (indices_from 0 p xs)
  AllPass-indices = AllPass-shift 0 p xs xs (λ i. rw zero-add)

  pub AllPass-descending : AllPass p xs (reverse_onto (indices_from 0 p xs) [])
  AllPass-descending = AllPass-reverse_onto p xs (indices_from 0 p xs) [] AllPass-indices tt

  pub Descends-descending : Descends (length xs) (reverse_onto (indices_from 0 p xs) [])
  Descends-descending =
      Descends-reverse_onto 0 (length xs) (indices_from 0 p xs) []
        (Ascends-indices_from 0 (length xs) p xs (omega arith)) tt

  pub Has-indices :
      (i : ℕ) {x : ScheduledItem}
      → get_elem? xs i ≡ some x
      → p x ≡ true
      → Has i (indices_from 0 p xs)
  Has-indices i g t =
      subst (λ j. Has j (indices_from 0 p xs)) (zero-add i) (Has-indices_from 0 p xs i g t)

  pub Has-descending :
      (i : ℕ) {x : ScheduledItem}
      → get_elem? xs i ≡ some x
      → p x ≡ true
      → Has i (reverse_onto (indices_from 0 p xs) [])
  Has-descending i g t = Has-reverse_onto i (indices_from 0 p xs) [] (inl (Has-indices i g t))
