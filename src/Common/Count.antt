-- ===== src/Common/Count.antt =====
-- How many slots of a vector pass a test, and how `swap_remove` changes the number.
use aivtuber.Common.{
  ℕ, zero, suc, ◌+◌, ◌-◌, ◌≤◌, ◌<◌, ◌≡◌, Bool, true, false, some, List, [], ◌∷◌, length, get_elem?,
  set, drop_last, swap_remove, if◌then◌else◌, get_elem?-lt, arith, get_elem?-drop_last,
  length-drop_last, ◌∙◌, subst,
}
use aivtuber.Common.Slots.{swap_remove-eq, last_item, set_outside}
use native.Mathlib.Decide.{ℕ_discrete}

module _ {ℓ} {A : Type ℓ} where
  -- One if the test passes.
  abbrev pub weight : (A → Bool) → A → ℕ
  weight p x = if p x then 1 else 0

  abbrev pub count_if : (A → Bool) → List A → ℕ
  count_if p [] = 0
  count_if p (x ∷ xs) = weight p x + count_if p xs

  pub count_if-le : (p : A → Bool) (xs : List A) → count_if p xs ≤ length xs
  count_if-le p [] = omega arith
  count_if-le p (x ∷ xs) = ground (arith, count_if-le p xs)

  pub count_if-set :
      (p : A → Bool) (xs : List A) (k : ℕ) (v : A) {x : A}
      → get_elem? xs k ≡ some x
      → count_if p (set xs k v) + weight p x ≡ count_if p xs + weight p v
  count_if-set p [] k v g = cc
  count_if-set p (y ∷ xs) zero v {x} g = let e : y ≡ x = cc g in rw e (omega arith)
  count_if-set p (y ∷ xs) (suc k) v g = omega (arith, count_if-set p xs k v g)

  count_if-drop_last :
      (p : A → Bool) (xs : List A) {v : A}
      → get_elem? xs (length xs - 1) ≡ some v
      → count_if p (drop_last xs) + weight p v ≡ count_if p xs
  count_if-drop_last p [] g = cc
  count_if-drop_last p (y ∷ []) {v} g = let e : y ≡ v = cc g in rw e (omega arith)
  count_if-drop_last p (y ∷ z ∷ xs) {v} g =
      let at : length (y ∷ z ∷ xs) - 1 ≡ suc (length (z ∷ xs) - 1) = omega arith in
      let g' : get_elem? (z ∷ xs) (length (z ∷ xs) - 1) ≡ some v =
        subst (λ j. get_elem? (y ∷ z ∷ xs) j ≡ some v) at g in
      omega (arith, count_if-drop_last p (z ∷ xs) g')

  -- The removed item no longer counts; every other one does.
  pub count_if-swap_remove :
      (p : A → Bool) (xs : List A) (k : ℕ) {x : A}
      → get_elem? xs k ≡ some x
      → count_if p (swap_remove xs k) + weight p x ≡ count_if p xs
  count_if-swap_remove p xs k {x} g =
      let inside = get_elem?-lt xs k g in
      let (v, e) = last_item xs k inside in
      let all = count_if-drop_last p xs e in
      elim (ℕ_discrete (suc k) (length xs)) [
        | yes q ↦
            let last : k ≡ length xs - 1 = omega arith in
            let same : x ≡ v = cc (g, e, last) in
            rw
              (
                swap_remove-eq xs k e,
                set_outside (drop_last xs) k v (omega (arith, length-drop_last xs)),
                same,
              )
              all
        | no ne ↦ rw (swap_remove-eq xs k e) (
            omega (
              arith,
              all,
              count_if-set p (drop_last xs) k v (get_elem?-drop_last xs k (omega arith) ∙ g),
            ))
      ]

  -- A test that passes less often.
  pub count_if_mono :
      (p q : A → Bool) (xs : List A)
      → ((x : A) → p x ≡ true → q x ≡ true)
      → count_if p xs ≤ count_if q xs
  count_if_mono p q [] h = omega arith
  count_if_mono p q (x ∷ xs) h = ground (arith, h x, count_if_mono p q xs h)

  -- It passes strictly less often where some item passes only the other one.
  pub count_if_strict :
      (p q : A → Bool) (xs : List A) (k : ℕ) {x : A}
      → ((y : A) → p y ≡ true → q y ≡ true)
      → get_elem? xs k ≡ some x
      → p x ≡ false
      → q x ≡ true
      → count_if p xs < count_if q xs
  count_if_strict p q [] k h g px qx = cc
  count_if_strict p q (y ∷ xs) zero {x} h g px qx =
      let e : y ≡ x = cc g in rw (e, px, qx) (omega (arith, count_if_mono p q xs h))
  count_if_strict p q (y ∷ xs) (suc k) {x} h g px qx =
      ground (arith, h y, count_if_strict p q xs k {x = x} h g px qx)
