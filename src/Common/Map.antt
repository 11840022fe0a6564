-- ===== src/Common/Map.antt =====
-- `BTreeMap` as an association list with one entry for a key. The order of the keys is forgotten:
-- the modelled code reads a map by key, by size and by `retain`.
use mathlib.Core.List.{List, [], ◌∷◌}
use mathlib.Core.Option.{Option, none, some}
use mathlib.Core.Bool.{Bool}
use mathlib.Core.Path.{◌≡◌, refl}
use native.Mathlib.Omega.{arith}
use Prim.Native.Nat.{◌+◌, ◌≤◌}
use aivtuber.Common.Lists.{length}
use aivtuber.Common.Tests.{Eq, ◌==◌, if◌then◌else◌}

module _ {ℓ κ} {K : Type ℓ} {V : Type κ} ⦃e : Eq K⦄ where
  -- `remove` drops the entry of the key; a map has at most one.
  unfoldable pub remove : K → List (K × V) → List (K × V)
  remove key [] = []
  remove key (entry ∷ rest) =
      let kept = remove key rest in if entry.0 == key then kept else entry ∷ kept

  -- `get`
  unfoldable pub lookup : K → List (K × V) → Option V
  lookup key [] = none
  lookup key (entry ∷ rest) =
      let later = lookup key rest in if entry.0 == key then some entry.1 else later

  -- `insert` puts the value in the place of the old one, or at the end.
  unfoldable pub insert : K → V → List (K × V) → List (K × V)
  insert key value [] = (key, value) ∷ []
  insert key value (entry ∷ rest) =
      let grown = insert key value rest in
      if entry.0 == key then (key, value) ∷ rest else entry ∷ grown

  pub lookup-remove :
      (key other : K) (entries : List (K × V))
      → lookup other (remove key entries) ≡ (if key == other then none else lookup other entries)
  unfolding lookup remove
  lookup-remove key other [] = ground arith
  lookup-remove key other ((found, value) ∷ rest) = ground (
    arith,
    e.same_iff key other,
    e.same_iff found key,
    e.same_iff found other,
    lookup-remove key other rest,
  )

  pub lookup-insert :
      (key other : K) (value : V) (entries : List (K × V))
      → lookup other (insert key value entries)
        ≡ (if key == other then some value else lookup other entries)
  unfolding lookup insert
  lookup-insert key other value [] = refl
  lookup-insert key other value ((found, old) ∷ rest) = ground (
    arith,
    e.same_iff key other,
    e.same_iff found key,
    e.same_iff found other,
    lookup-insert key other value rest,
  )

  -- The number of keys.
  pub length-insert_old :
      (key : K) (value old : V) (entries : List (K × V))
      → lookup key entries ≡ some old
      → length (insert key value entries) ≡ length entries
  unfolding lookup insert
  length-insert_old key value old [] h = cc
  length-insert_old key value old ((found, v) ∷ rest) h =
      ground (arith, length-insert_old key value old rest)

  pub length-insert :
      (key : K) (value : V) (entries : List (K × V))
      → length (insert key value entries) ≤ length entries + 1
  unfolding insert
  length-insert key value [] = omega arith
  length-insert key value (entry ∷ rest) = ground (arith, length-insert key value rest)

  pub length-remove :
      (key : K) (entries : List (K × V)) → length (remove key entries) ≤ length entries
  unfolding remove
  length-remove key [] = omega arith
  length-remove key (entry ∷ rest) = ground (arith, length-remove key rest)

module _ {ℓ κ} {K : Type ℓ} {V : Type κ} where
  -- `retain` with a test on the value.
  unfoldable pub retain : (V → Bool) → List (K × V) → List (K × V)
  retain p [] = []
  retain p ((j, w) ∷ m) = if p w then (j, w) ∷ retain p m else retain p m
