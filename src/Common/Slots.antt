-- ===== src/Common/Slots.antt =====
-- What holds of every slot of a vector, or of every two slots, and how `swap_remove`, a write and
-- a push keep it.
use aivtuber.Common.{
  ℕ, zero, suc, ◌≤◌, refl, ap, ◌+◌, ◌-◌, ◌<◌, ◌≡◌, ◌≢◌, ◌⊎◌, inl, inr, sym, ◌∙◌, some, List, [],
  ◌∷◌, ◌++◌, length, get_elem?, set, drop_last, swap_remove, length-set, length-drop_last,
  get_elem?-lt, get_elem?_total, get_elem?-set_self, get_elem?-set_ne, get_elem?-drop_last,
  get_elem?-push, subst, arith,
}
use native.Mathlib.Decide.{ℕ_discrete}

module _ {ℓ} {A : Type ℓ} where
  -- With the last item at hand, `swap_remove` is a write into the shortened vector.
  pub swap_remove-eq :
      (xs : List A) (k : ℕ) {v : A}
      → get_elem? xs (length xs - 1) ≡ some v
      → swap_remove xs k ≡ set (drop_last xs) k v
  unfolding swap_remove
  swap_remove-eq xs k h = rw h

  pub last_item :
      (xs : List A) (k : ℕ) → k < length xs → (v : A) × (get_elem? xs (length xs - 1) ≡ some v)
  last_item xs k h = get_elem?_total xs (length xs - 1) (omega arith)

  pub length-swap_remove :
      (xs : List A) (k : ℕ) → k < length xs → length (swap_remove xs k) + 1 ≡ length xs
  length-swap_remove xs k h =
      let (v, e) = last_item xs k h in
      rw (swap_remove-eq xs k e) (omega (arith, length-set (drop_last xs) k v, length-drop_last xs))

  -- The slots other than `k` keep their items.
  pub get_elem?-swap_remove_ne :
      (xs : List A) (k i : ℕ)
      → k < length xs
      → i ≢ k
      → suc i < length xs
      → get_elem? (swap_remove xs k) i ≡ get_elem? xs i
  get_elem?-swap_remove_ne xs k i h ne lt =
      let (v, e) = last_item xs k h in
      rw (swap_remove-eq xs k e)
        (get_elem?-set_ne (drop_last xs) k i v (λ p. ne (sym p)) ∙ get_elem?-drop_last xs i lt)

  -- Slot `k` gets the last item.
  pub get_elem?-swap_remove_self :
      (xs : List A) (k : ℕ)
      → suc k < length xs
      → get_elem? (swap_remove xs k) k ≡ get_elem? xs (length xs - 1)
  get_elem?-swap_remove_self xs k lt =
      let (v, e) = last_item xs k (omega arith) in
      rw (swap_remove-eq xs k e, e)
        (get_elem?-set_self (drop_last xs) k v (omega (arith, length-drop_last xs)))

  -- The slot that an item of the shortened vector came from.
  pub origin : List A → ℕ → ℕ → ℕ
  origin xs k i = elim (ℕ_discrete i k) [ yes _ ↦ length xs - 1 | no _ ↦ i ]

  pub get_elem?-origin :
      (xs : List A) (k i : ℕ) {x : A}
      → k < length xs
      → get_elem? (swap_remove xs k) i ≡ some x
      → get_elem? xs (origin xs k i) ≡ some x
  unfolding origin
  get_elem?-origin xs k i {x} h g =
      let inside = get_elem?-lt (swap_remove xs k) i g in
      let len = length-swap_remove xs k h in
      elim (ℕ_discrete i k)
        as (λ d. get_elem? xs (elim d [ yes _ ↦ length xs - 1 | no _ ↦ i ]) ≡ some x) [
          | yes e ↦
              sym (get_elem?-swap_remove_self xs k (omega arith))
              ∙ subst (λ j. get_elem? (swap_remove xs k) j ≡ some x) e g
          | no ne ↦ sym (get_elem?-swap_remove_ne xs k i h ne (omega arith)) ∙ g
        ]

  pub origin-ne :
      (xs : List A) (k i j : ℕ) {x y : A}
      → k < length xs
      → get_elem? (swap_remove xs k) i ≡ some x
      → get_elem? (swap_remove xs k) j ≡ some y
      → i ≢ j
      → origin xs k i ≢ origin xs k j
  unfolding origin
  origin-ne xs k i j h gi gj ne =
      let len = length-swap_remove xs k h in
      let inside = get_elem?-lt (swap_remove xs k) i gi in
      let inside' = get_elem?-lt (swap_remove xs k) j gj in ground arith

  pub origin-ne_removed :
      (xs : List A) (k i : ℕ) {x : A}
      → k < length xs
      → get_elem? (swap_remove xs k) i ≡ some x
      → origin xs k i ≢ k
  unfolding origin
  origin-ne_removed xs k i h g =
      let len = length-swap_remove xs k h in
      let inside = get_elem?-lt (swap_remove xs k) i g in ground arith

  -- A slot of a written vector is the written one or an old one.
  pub get_elem?-set :
      (xs : List A) (k i : ℕ) (v : A) {x : A}
      → get_elem? (set xs k v) i ≡ some x
      → ((i ≡ k) × (v ≡ x)) ⊎ ((i ≢ k) × (get_elem? xs i ≡ some x))
  get_elem?-set xs k i v g = elim (ℕ_discrete i k) [
    | yes e ↦
        let inside = get_elem?-lt (set xs k v) i g in
        let self = get_elem?-set_self xs k v (omega (arith, length-set xs k v)) in
        inl (e, cc (self, g, e))
    | no ne ↦ inr (ne, sym (get_elem?-set_ne xs k i v (λ p. ne (sym p))) ∙ g)
  ]

module _ {ℓ κ} {A : Type ℓ} where
  abbrev pub AllAt : (A → Type κ) → List A → Type (ℓ ⊔ κ)
  AllAt P xs = (i : ℕ) (x : A) → get_elem? xs i ≡ some x → P x

  abbrev pub PairwiseAt : (A → A → Type κ) → List A → Type (ℓ ⊔ κ)
  PairwiseAt R xs =
      (i j : ℕ) (x y : A) → get_elem? xs i ≡ some x → get_elem? xs j ≡ some y → i ≢ j → R x y

  pub AllAt-swap_remove :
      (P : A → Type κ) (xs : List A) (k : ℕ)
      → k < length xs
      → AllAt P xs
      → AllAt P (swap_remove xs k)
  AllAt-swap_remove P xs k h all i x g = all (origin xs k i) x (get_elem?-origin xs k i h g)

  pub PairwiseAt-swap_remove :
      (R : A → A → Type κ) (xs : List A) (k : ℕ)
      → k < length xs
      → PairwiseAt R xs
      → PairwiseAt R (swap_remove xs k)
  PairwiseAt-swap_remove R xs k h all i j x y gi gj ne =
      all (origin xs k i) (origin xs k j) x y (get_elem?-origin xs k i h gi)
        (get_elem?-origin xs k j h gj) (origin-ne xs k i j h gi gj ne)

  pub AllAt-set :
      (P : A → Type κ) (xs : List A) (k : ℕ) (v : A) → P v → AllAt P xs → AllAt P (set xs k v)
  AllAt-set P xs k v pv all i x g = elim (get_elem?-set xs k i v g) [
    | inl (_, e) ↦ subst P e pv
    | inr (_, old) ↦ all i x old
  ]

  pub AllAt-push :
      (P : A → Type κ) (xs : List A) (v : A) → P v → AllAt P xs → AllAt P (xs ++ v ∷ [])
  AllAt-push P xs v pv all i x g = elim (get_elem?-push xs v i g) [
    | inl old ↦ all i x old
    | inr (_, e) ↦ subst P e pv
  ]

  -- A pushed item must stand in the relation with every old one, both ways.
  pub PairwiseAt-push :
      (R : A → A → Type κ) (xs : List A) (v : A)
      → AllAt (λ x. R x v × R v x) xs
      → PairwiseAt R xs
      → PairwiseAt R (xs ++ v ∷ [])
  PairwiseAt-push R xs v new all i j x y gi gj ne = elim (get_elem?-push xs v i gi) [
    | inl old ↦ elim (get_elem?-push xs v j gj) [
      | inl old' ↦ all i j x y old old' ne
      | inr (_, e) ↦ subst (λ w. R x w) e (new i x old).0
    ]
    | inr (p, e) ↦ elim (get_elem?-push xs v j gj) [
      | inl old' ↦ subst (λ w. R w y) e (new j y old').1
      | inr (q, _) ↦ absurd (ne (p ∙ sym q))
    ]
  ]

  -- A write keeps the relation where the new item stands in it with every other one.
  pub PairwiseAt-set :
      (R : A → A → Type κ) (xs : List A) (k : ℕ) (v : A)
      → ((i : ℕ) (x : A) → get_elem? xs i ≡ some x → i ≢ k → R x v × R v x)
      → PairwiseAt R xs
      → PairwiseAt R (set xs k v)
  PairwiseAt-set R xs k v new all i j x y gi gj ne = elim (get_elem?-set xs k i v gi) [
    | inl (p, e) ↦ elim (get_elem?-set xs k j v gj) [
      | inl (q, _) ↦ absurd (ne (p ∙ sym q))
      | inr (q, old') ↦ subst (λ w. R w y) e (new j y old' q).1
    ]
    | inr (p, old) ↦ elim (get_elem?-set xs k j v gj) [
      | inl (_, e) ↦ subst (λ w. R x w) e (new i x old p).0
      | inr (_, old') ↦ all i j x y old old' ne
    ]
  ]

module _ {ℓ} {A : Type ℓ} where
  drop_last-set :
      (xs : List A) (k : ℕ) (y v : A) → set (drop_last (set xs k y)) k v ≡ set (drop_last xs) k v
  drop_last-set [] k y v = refl
  drop_last-set (x ∷ []) zero y v = refl
  drop_last-set (x ∷ []) (suc k) y v = refl
  drop_last-set (x ∷ x' ∷ xs) zero y v = refl
  drop_last-set (x ∷ x' ∷ xs) (suc zero) y v = ap (◌∷◌ x) (drop_last-set (x' ∷ xs) zero y v)
  drop_last-set (x ∷ x' ∷ xs) (suc (suc k)) y v = ap (◌∷◌ x) (drop_last-set (x' ∷ xs) (suc k) y v)

  -- A write behind the end.
  pub set_outside : (xs : List A) (k : ℕ) (v : A) → length xs ≤ k → set xs k v ≡ xs
  set_outside [] k v h = refl
  set_outside (x ∷ xs) zero v h = absurd (omega arith)
  set_outside (x ∷ xs) (suc k) v h = ap (◌∷◌ x) (set_outside xs k v (omega arith))

  -- What was written to a slot that is then removed is gone.
  pub swap_remove-set :
      (xs : List A) (k : ℕ) (y : A) → k < length xs → swap_remove (set xs k y) k ≡ swap_remove xs k
  swap_remove-set xs k y h =
      let (v, e) = last_item xs k h in
      let len = length-set xs k y in
      elim (ℕ_discrete (suc k) (length xs)) [
        | yes p ↦
            let (w, e') = last_item (set xs k y) k (omega (arith, h, len)) in
            swap_remove-eq (set xs k y) k e'
            ∙ drop_last-set xs k y w
            ∙ set_outside (drop_last xs) k w (omega (arith, p, length-drop_last xs))
            ∙ sym (set_outside (drop_last xs) k v (omega (arith, p, length-drop_last xs)))
            ∙ sym (swap_remove-eq xs k e)
        | no ne ↦
            let e' : get_elem? (set xs k y) (length (set xs k y) - 1) ≡ some v =
              rw len (get_elem?-set_ne xs k (length xs - 1) y (omega arith) ∙ e) in
            swap_remove-eq (set xs k y) k e' ∙ drop_last-set xs k y v ∙ sym (swap_remove-eq xs k e)
      ]
