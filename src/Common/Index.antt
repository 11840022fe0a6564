-- ===== src/Common/Index.antt =====
-- An index: a map from the key of an item to the slot of a vector that holds it, kept through
-- `swap_remove` by removing the key of the retired item and writing the key of the moved one anew.
use aivtuber.Common.{
  ℕ, suc, ◌+◌, ◌-◌, ◌<◌, ◌≡◌, ◌≢◌, inl, inr, sym, ap, ◌∙◌, subst, Option, none, some, List, [], ◌∷◌,
  ◌++◌, length, get_elem?, set, swap_remove, Eq, ◌==◌, get_elem?-lt, get_elem?-none, get_elem?-push,
  get_elem?-push_old, get_elem?-push_last, get_elem?-set_self, get_elem?-set_ne, Bool-cases,
  eq_of_beq, beq_self, beq_ne, ne_of_beq, Option-cases, arith,
}
use aivtuber.Common.Map.{lookup, insert, remove, lookup-insert, lookup-remove}
use aivtuber.Common.Slots.{
  get_elem?-swap_remove_ne, get_elem?-swap_remove_self, length-swap_remove, get_elem?-origin,
  origin, origin-ne_removed, get_elem?-set,
}
use native.Mathlib.Decide.{ℕ_discrete}

module _ {ℓ κ} {A : Type ℓ} {K : Type κ} ⦃e : Eq K⦄ where
  -- Every item is found under its key, and every entry leads to an item with that key.
  pub record Indexes (key : A → K) (xs : List A) (m : List (K × ℕ)) : Type (ℓ ⊔ κ) where
    pub complete : (i : ℕ) (x : A) → get_elem? xs i ≡ some x → lookup (key x) m ≡ some i
    pub sound :
        (k : K) (i : ℕ) → lookup k m ≡ some i → (x : A) × (get_elem? xs i ≡ some x) × (key x ≡ k)

  -- The two steps of `Scheduler::retire` on an index.
  unfoldable pub reindex : (A → K) → Option A → ℕ → List (K × ℕ) → List (K × ℕ)
  reindex key none k m = m
  reindex key (some y) k m = insert (key y) k m

  module _ (key : A → K) (xs : List A) (m : List (K × ℕ)) where
    -- Two slots with one key are one slot.
    pub Indexes-injective :
        Indexes key xs m
        → (i j : ℕ) (x y : A) → get_elem? xs i ≡ some x
        → get_elem? xs j ≡ some y
        → key x ≡ key y
        → i ≡ j
    Indexes-injective h i j x y gi gj same = cc (h.complete i x gi, h.complete j y gj, same)

    lookup-removed : (k j : K) → k ≢ j → lookup j (remove k m) ≡ lookup j m
    lookup-removed k j ne = rw (lookup-remove k j m, beq_ne k j ne)

    lookup-inserted :
        (n : List (K × ℕ)) (k j : K) (v : ℕ) → k ≢ j → lookup j (insert k v n) ≡ lookup j n
    lookup-inserted n k j v ne = rw (lookup-insert k j v n, beq_ne k j ne)

    lookup-insert_self : (n : List (K × ℕ)) (k : K) (v : ℕ) → lookup k (insert k v n) ≡ some v
    lookup-insert_self n k v = rw (lookup-insert k k v n, beq_self k)

    module _ (k : ℕ) (x : A) (gk : get_elem? xs k ≡ some x) (h : Indexes key xs m) where
      inside : k < length xs
      inside = get_elem?-lt xs k gk

      len : length (swap_remove xs k) + 1 ≡ length xs
      len = length-swap_remove xs k inside

      -- An item that is still there has another key than the retired one.
      other : (i : ℕ) (z : A) → get_elem? (swap_remove xs k) i ≡ some z → key x ≢ key z
      other i z g = λ p.
          origin-ne_removed xs k i inside g (
            sym (Indexes-injective h k (origin xs k i) x z gk (get_elem?-origin xs k i inside g) p))

      -- A slot other than `k` of the shortened vector.
      stays :
          (i : ℕ) (z : A)
          → get_elem? (swap_remove xs k) i ≡ some z
          → i ≢ k
          → get_elem? xs i ≡ some z
      stays i z g ne =
          let lt = get_elem?-lt (swap_remove xs k) i g in
          sym (get_elem?-swap_remove_ne xs k i inside ne (omega (arith, inside, len))) ∙ g

      complete_gone :
          get_elem? (swap_remove xs k) k ≡ none
          → (i : ℕ) (z : A) → get_elem? (swap_remove xs k) i ≡ some z
          → lookup (key z) (remove (key x) m) ≡ some i
      complete_gone gone i z g =
          lookup-removed (key x) (key z) (other i z g)
          ∙ h.complete i z (stays i z g (λ p. cc (gone, g, p)))

      complete_moved :
          (y : A)
          → get_elem? (swap_remove xs k) k ≡ some y
          → (i : ℕ) (z : A) → get_elem? (swap_remove xs k) i ≡ some z
          → lookup (key z) (insert (key y) k (remove (key x) m)) ≡ some i
      complete_moved y moved i z g = elim (ℕ_discrete i k) [
        | yes p ↦
            let same : y ≡ z = cc (moved, g, p) in
            subst (λ w. lookup (key w) (insert (key y) k (remove (key x) m)) ≡ some i) same
              (lookup-insert_self (remove (key x) m) (key y) k ∙ ap some (sym p))
        | no ne ↦
            let at_y = get_elem?-origin xs k k inside moved in
            let last : get_elem? xs (length xs - 1) ≡ some y =
              sym (
                get_elem?-swap_remove_self xs k
                  (let lt = get_elem?-lt (swap_remove xs k) k moved in omega (arith, inside, len)))
              ∙ moved in
            let apart : key y ≢ key z = λ q.
              let lt = get_elem?-lt (swap_remove xs k) i g in
              let hit = Indexes-injective h (length xs - 1) i y z last (stays i z g ne) q in
              absurd (omega (arith, inside, len)) in
            lookup-inserted (remove (key x) m) (key y) (key z) k apart
            ∙ lookup-removed (key x) (key z) (other i z g)
            ∙ h.complete i z (stays i z g ne)
      ]

      -- An entry that was left in place.
      sound_left :
          (j : K) (i : ℕ)
          → key x ≢ j
          → lookup j (remove (key x) m) ≡ some i
          → (z : A) × (get_elem? xs i ≡ some z) × (key z ≡ j)
      sound_left j i ne g = h.sound j i (sym (lookup-removed (key x) j ne) ∙ g)

      not_removed : (j : K) (i : ℕ) → lookup j (remove (key x) m) ≡ some i → key x ≢ j
      not_removed j i g = λ p. cc (lookup-remove (key x) j m, p, g, beq_self (key x))

      slot_left :
          (j : K) (i : ℕ) (z : A)
          → key x ≢ j
          → get_elem? xs i ≡ some z
          → key z ≡ j
          → suc i < length xs
          → (w : A) × (get_elem? (swap_remove xs k) i ≡ some w) × (key w ≡ j)
      slot_left j i z ne g q lt =
          let apart : i ≢ k = λ p. ne (let same : x ≡ z = cc (gk, g, p) in ap key same ∙ q) in
          (z, get_elem?-swap_remove_ne xs k i inside apart lt ∙ g, q)

      sound_gone :
          get_elem? (swap_remove xs k) k ≡ none
          → (j : K) (i : ℕ) → lookup j (remove (key x) m) ≡ some i
          → (w : A) × (get_elem? (swap_remove xs k) i ≡ some w) × (key w ≡ j)
      sound_gone gone j i g =
          let ne = not_removed j i g in
          let (z, at, q) = sound_left j i ne g in
          let short = get_elem?-none (swap_remove xs k) k gone in
          let lt = get_elem?-lt xs i at in
          let apart : i ≢ k = λ p. ne (let same : x ≡ z = cc (gk, at, p) in ap key same ∙ q) in
          slot_left j i z ne at q (omega (arith, inside, len))

      sound_moved :
          (y : A)
          → get_elem? (swap_remove xs k) k ≡ some y
          → (j : K) (i : ℕ) → lookup j (insert (key y) k (remove (key x) m)) ≡ some i
          → (w : A) × (get_elem? (swap_remove xs k) i ≡ some w) × (key w ≡ j)
      sound_moved y moved j i g = elim (Bool-cases (key y == j)) [
        | inl hit ↦
            let here : i ≡ k = cc (lookup-insert (key y) j k (remove (key x) m), hit, g) in
            (y, rw here moved, eq_of_beq (key y) j hit)
        | inr miss ↦
            let apart = ne_of_beq (key y) j miss in
            let g' = sym (lookup-inserted (remove (key x) m) (key y) j k apart) ∙ g in
            let ne = not_removed j i g' in
            let (z, at, q) = sound_left j i ne g' in
            let inner = get_elem?-lt (swap_remove xs k) k moved in
            let last : get_elem? xs (length xs - 1) ≡ some y =
              sym (get_elem?-swap_remove_self xs k (omega (arith, inside, len))) ∙ moved in
            let lt = get_elem?-lt xs i at in
            let not_last : i ≢ length xs - 1 =
              λ p. apart (let same : y ≡ z = cc (last, at, p) in ap key same ∙ q) in
            slot_left j i z ne at q (omega (arith, inside, len))
      ]

      -- The index of a vector whose slot `k` was retired.
      pub Indexes-swap_remove :
          Indexes key
            (swap_remove xs k)
            (reindex key (get_elem? (swap_remove xs k) k) k (remove (key x) m))
      unfolding reindex
      Indexes-swap_remove = elim (Option-cases (get_elem? (swap_remove xs k) k)) [
        | inl gone ↦ rw gone (record { complete = complete_gone gone; sound = sound_gone gone })
        | inr (y, moved) ↦
            rw moved (record { complete = complete_moved y moved; sound = sound_moved y moved })
      ]

    -- A write that keeps the key keeps the index.
    pub Indexes-set :
        (k : ℕ) (x y : A)
        → get_elem? xs k ≡ some x
        → key y ≡ key x
        → Indexes key xs m
        → Indexes key (set xs k y) m
    Indexes-set k x y gk same h = record { complete = complete_set; sound = sound_set }
      where
        complete_set :
            (i : ℕ) (z : A) → get_elem? (set xs k y) i ≡ some z → lookup (key z) m ≡ some i
        complete_set i z g = elim (get_elem?-set xs k i y g) [
          | inl (p, q) ↦ cc (h.complete k x gk, same, ap key q, p)
          | inr (_, old) ↦ h.complete i z old
        ]

        sound_set :
            (j : K) (i : ℕ)
            → lookup j m ≡ some i
            → (z : A) × (get_elem? (set xs k y) i ≡ some z) × (key z ≡ j)
        sound_set j i g =
            let (z, at, q) = h.sound j i g in
            elim (ℕ_discrete k i) [
              | yes p ↦ (
                y,
                rw (← p) (get_elem?-set_self xs k y (get_elem?-lt xs k gk)),
                cc (same, q, gk, at, p),
              )
              | no ne ↦ (z, get_elem?-set_ne xs k i y ne ∙ at, q)
            ]

    -- A pushed item with a new key is indexed at the end.
    pub Indexes-push :
        (y : A)
        → ((i : ℕ) (x : A) → get_elem? xs i ≡ some x → key x ≢ key y)
        → Indexes key xs m
        → Indexes key (xs ++ y ∷ []) (insert (key y) (length xs) m)
    Indexes-push y new h = record { complete = complete_push; sound = sound_push }
      where
        complete_push :
            (i : ℕ) (z : A)
            → get_elem? (xs ++ y ∷ []) i ≡ some z
            → lookup (key z) (insert (key y) (length xs) m) ≡ some i
        complete_push i z g = elim (get_elem?-push xs y i g) [
          | inl old ↦
              lookup-inserted m (key y) (key z) (length xs) (λ p. new i z old (sym p))
              ∙ h.complete i z old
          | inr (p, q) ↦
              subst (λ w. lookup (key w) (insert (key y) (length xs) m) ≡ some i) q
                (lookup-insert_self m (key y) (length xs) ∙ ap some (sym p))
        ]

        sound_push :
            (j : K) (i : ℕ)
            → lookup j (insert (key y) (length xs) m) ≡ some i
            → (z : A) × (get_elem? (xs ++ y ∷ []) i ≡ some z) × (key z ≡ j)
        sound_push j i g = elim (Bool-cases (key y == j)) [
          | inl hit ↦
              let here : i ≡ length xs = cc (lookup-insert (key y) j (length xs) m, hit, g) in
              (y, rw here (get_elem?-push_last xs y), eq_of_beq (key y) j hit)
          | inr miss ↦
              let (z, at, q) =
                h.sound j i
                  (sym (lookup-inserted m (key y) j (length xs) (ne_of_beq (key y) j miss)) ∙ g) in
              (z, get_elem?-push_old xs y i at, q)
        ]
