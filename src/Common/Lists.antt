-- ===== src/Common/Lists.antt =====
-- Vectors as lists over the native numbers: reads, writes, `swap_remove`, and what a property of
-- every slot, or of every two slots, says after them.
use Prim.Native.Nat.{ℕ, zero, suc, ◌+◌, ◌-◌, ◌≤◌, ◌<◌}
use mathlib.Core.Path.{◌≡◌, refl, ap}
use mathlib.Core.Logic.{◌≢◌, ◌⊎◌, inl, inr}
use mathlib.Core.Bool.{Bool, true, false}
use mathlib.Core.List.{List, [], ◌∷◌, ◌++◌}
use mathlib.Core.Option.{Option, none, some}
use native.Mathlib.Omega.{arith}
use aivtuber.Common.Tests.{if◌then◌else◌}

module _ {ℓ} {A : Type ℓ} where
  abbrev pub length : List A → ℕ
  length [] = 0
  length (x ∷ xs) = suc (length xs)

  abbrev pub get_elem? : List A → ℕ → Option A
  get_elem? [] i = none
  get_elem? (x ∷ xs) zero = some x
  get_elem? (x ∷ xs) (suc i) = get_elem? xs i

  -- A write out of bounds changes nothing.
  abbrev pub set : List A → ℕ → A → List A
  set [] i v = []
  set (x ∷ xs) zero v = v ∷ xs
  set (x ∷ xs) (suc i) v = x ∷ set xs i v

  abbrev pub drop_last : List A → List A
  drop_last [] = []
  drop_last (x ∷ []) = []
  drop_last (x ∷ y ∷ xs) = x ∷ drop_last (y ∷ xs)

  -- The last slot moves into slot `i`; where `i` is the last slot, there is none to write to.
  move_last : List A → ℕ → Option A → List A
  move_last xs i none = xs
  move_last xs i (some v) = set (drop_last xs) i v

  -- `Vec::swap_remove`, without the removed item.
  unfoldable pub swap_remove : List A → ℕ → List A
  unfolding move_last
  swap_remove xs i = move_last xs i (get_elem? xs (length xs - 1))

  -- `Iterator::any`, `Iterator::all`
  abbrev pub any : (A → Bool) → List A → Bool
  any p [] = false
  any p (x ∷ xs) = if p x then true else any p xs

  abbrev pub all : (A → Bool) → List A → Bool
  all p [] = true
  all p (x ∷ xs) = if p x then all p xs else false

  pub length-append : (xs ys : List A) → length (xs ++ ys) ≡ length xs + length ys
  length-append [] ys = omega arith
  length-append (x ∷ xs) ys = omega (arith, length-append xs ys)

  pub length-set : (xs : List A) (i : ℕ) (v : A) → length (set xs i v) ≡ length xs
  length-set [] i v = refl
  length-set (x ∷ xs) zero v = refl
  length-set (x ∷ xs) (suc i) v = ap suc (length-set xs i v)

  pub length-drop_last : (xs : List A) → length (drop_last xs) ≡ length xs - 1
  length-drop_last [] = omega arith
  length-drop_last (x ∷ []) = omega arith
  length-drop_last (x ∷ y ∷ xs) = omega (arith, length-drop_last (y ∷ xs))

  pub get_elem?-lt : (xs : List A) (i : ℕ) {x : A} → get_elem? xs i ≡ some x → i < length xs
  get_elem?-lt [] i h = cc
  get_elem?-lt (x ∷ xs) zero h = omega arith
  get_elem?-lt (x ∷ xs) (suc i) h = omega (arith, get_elem?-lt xs i h)

  pub get_elem?-none : (xs : List A) (i : ℕ) → get_elem? xs i ≡ none → length xs ≤ i
  get_elem?-none [] i h = omega arith
  get_elem?-none (x ∷ xs) zero h = cc
  get_elem?-none (x ∷ xs) (suc i) h = omega (arith, get_elem?-none xs i h)

  pub get_elem?_total : (xs : List A) (i : ℕ) → i < length xs → (x : A) × (get_elem? xs i ≡ some x)
  get_elem?_total [] i h = absurd (omega arith)
  get_elem?_total (x ∷ xs) zero h = (x, refl)
  get_elem?_total (x ∷ xs) (suc i) h = get_elem?_total xs i (omega arith)

  pub get_elem?-set_self :
      (xs : List A) (i : ℕ) (v : A) → i < length xs → get_elem? (set xs i v) i ≡ some v
  get_elem?-set_self [] i v h = absurd (omega arith)
  get_elem?-set_self (x ∷ xs) zero v h = refl
  get_elem?-set_self (x ∷ xs) (suc i) v h = get_elem?-set_self xs i v (omega arith)

  pub get_elem?-set_ne :
      (xs : List A) (i j : ℕ) (v : A) → i ≢ j → get_elem? (set xs i v) j ≡ get_elem? xs j
  get_elem?-set_ne [] i j v h = refl
  get_elem?-set_ne (x ∷ xs) zero zero v h = absurd (h refl)
  get_elem?-set_ne (x ∷ xs) zero (suc j) v h = refl
  get_elem?-set_ne (x ∷ xs) (suc i) zero v h = refl
  get_elem?-set_ne (x ∷ xs) (suc i) (suc j) v h = get_elem?-set_ne xs i j v (λ e. h (ap suc e))

  pub get_elem?-drop_last :
      (xs : List A) (i : ℕ) → suc i < length xs → get_elem? (drop_last xs) i ≡ get_elem? xs i
  get_elem?-drop_last [] i h = absurd (omega arith)
  get_elem?-drop_last (x ∷ []) i h = absurd (omega arith)
  get_elem?-drop_last (x ∷ y ∷ xs) zero h = refl
  get_elem?-drop_last (x ∷ y ∷ xs) (suc i) h = get_elem?-drop_last (y ∷ xs) i (omega arith)

  -- A slot of a pushed vector is an old one or the last.
  pub get_elem?-push :
      (xs : List A) (v : A) (i : ℕ) {x : A}
      → get_elem? (xs ++ v ∷ []) i ≡ some x
      → (get_elem? xs i ≡ some x) ⊎ ((i ≡ length xs) × (v ≡ x))
  get_elem?-push [] v zero h = inr (ground arith)
  get_elem?-push [] v (suc i) h = cc
  get_elem?-push (y ∷ xs) v zero h = inl h
  get_elem?-push (y ∷ xs) v (suc i) h = elim (get_elem?-push xs v i h) [
    | inl old ↦ inl old
    | inr (e, f) ↦ inr (ap suc e, f)
  ]

  pub get_elem?-push_old :
      (xs : List A) (v : A) (i : ℕ) {x : A}
      → get_elem? xs i ≡ some x
      → get_elem? (xs ++ v ∷ []) i ≡ some x
  get_elem?-push_old [] v i h = cc
  get_elem?-push_old (y ∷ xs) v zero h = h
  get_elem?-push_old (y ∷ xs) v (suc i) h = get_elem?-push_old xs v i h

  pub get_elem?-push_last : (xs : List A) (v : A) → get_elem? (xs ++ v ∷ []) (length xs) ≡ some v
  get_elem?-push_last [] v = refl
  get_elem?-push_last (y ∷ xs) v = get_elem?-push_last xs v

  pub eq-nil_of_length : (xs : List A) → length xs ≤ 0 → xs ≡ []
  eq-nil_of_length [] h = refl
  eq-nil_of_length (x ∷ xs) h = absurd (omega arith)
