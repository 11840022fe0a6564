-- ===== src/Runtime/Correlations.antt =====
-- crates/runtime/src/lib.rs: the bounded registry of correlations.
use aivtuber.Common.{
  ◌≤◌, ◌≡◌, refl, inl, inr, String, Bool, true, false, none, some, List, [], ◌∷◌, ◌++◌, length, any,
  ltb, ◌==◌, string_eq, eq_of_beq, beq_self, if◌then◌else◌, Bool-cases, arith,
}
use aivtuber.Common.Map.{lookup, insert, remove, lookup-insert, lookup-remove}
use aivtuber.Budget.Data.{is_some}
use aivtuber.Runtime.Data.{CorrelationRef, max_correlation_refs}
use aivtuber.Runtime.Content.{without, trim_correlations}

abbrev pub is_in : String → List String → Bool
is_in id order = any (λ j. j == id) order

-- Every registered correlation is in the order of admission.
abbrev pub Covers : List String → List (String × CorrelationRef) → Type 0
Covers order refs =
    (id : String) (r : CorrelationRef) → lookup id refs ≡ some r → is_in id order ≡ true

any-push :
    (id x : String) (order : List String)
    → is_in id (order ++ x ∷ []) ≡ (if is_in id order then true else x == id)
any-push id x [] = ground arith
any-push id x (j ∷ js) = ground (arith, any-push id x js)

in-without :
    (id x : String) (order : List String)
    → (x == id) ≡ false
    → is_in id order ≡ true
    → is_in id (without x order) ≡ true
unfolding without
in-without id x [] ne h = h
in-without id x (j ∷ js) ne h = elim (Bool-cases (j == x)) [
  | inl e ↦
      let same : j ≡ x = eq_of_beq j x e in
      let other : (j == id) ≡ false = rw same ne in
      rw (e, without) (in-without id x js ne (rw other at h))
  | inr e ↦ rw (e, without) (in-kept (in-without id x js ne))
]
  where
    in-kept :
        (is_in id js ≡ true → is_in id (without x js) ≡ true) → is_in id (j ∷ without x js) ≡ true
    in-kept step = ground arith

nothing_registered : (refs : List (String × CorrelationRef)) → Covers [] refs → length refs ≤ 0
unfolding lookup
nothing_registered [] c = omega arith
nothing_registered ((k, r) ∷ rest) c =
    let found : lookup k ((k, r) ∷ rest) ≡ some r = rw (beq_self k) refl in
    absurd (cc (c k r found))

module _ (oldest : String) (order : List String) (refs : List (String × CorrelationRef)) where
  Covers-remove : Covers (oldest ∷ order) refs → Covers order (remove oldest refs)
  Covers-remove c id r h = elim (Bool-cases (oldest == id)) [
    | inl e ↦
        let gone : lookup id (remove oldest refs) ≡ none = rw (lookup-remove, e) in
        absurd (cc (h, gone))
    | inr e ↦
        let old : lookup id refs ≡ some r = rw (lookup-remove, e) at h in
        let found = c id r old in rw e at found
  ]

pub trim_correlations-Covers :
    (order : List String) (refs : List (String × CorrelationRef))
    → Covers order refs
    → Covers (trim_correlations order refs).0 (trim_correlations order refs).1
      × (length (trim_correlations order refs).1 ≤ max_correlation_refs)
unfolding trim_correlations
trim_correlations-Covers [] refs c = (c, omega (arith, nothing_registered refs c))
trim_correlations-Covers (oldest ∷ order) refs c =
    elim (Bool-cases (ltb max_correlation_refs (length refs))) [
      | inl e ↦
          rw (e, trim_correlations)
            (trim_correlations-Covers order (remove oldest refs)
              (Covers-remove oldest order refs c))
      | inr e ↦ rw (e, trim_correlations) (c, ground arith)
    ]

in-push_self :
    (id x : String) (order : List String) → (x == id) ≡ true → is_in id (order ++ x ∷ []) ≡ true
in-push_self id x order e = ground (arith, any-push id x order)

in-push_old :
    (id x : String) (order : List String)
    → is_in id order ≡ true
    → is_in id (order ++ x ∷ []) ≡ true
in-push_old id x order h = ground (arith, any-push id x order)

in-either :
    (b : Bool) (id x : String) (order : List String)
    → (x == id) ≡ false
    → is_in id order ≡ true
    → is_in id (if b then without x order else order) ≡ true
in-either true id x order ne h = in-without id x order ne h
in-either false id x order ne h = h

-- A correlation that is registered, after a repeated one has left the order.
pub Covers-insert :
    (id : String) (r : CorrelationRef) (order : List String) (refs : List (String × CorrelationRef))
    → Covers order refs
    → Covers
        ((if is_some (lookup id refs) then without id order else order) ++ id ∷ [])
        (insert id r refs)
Covers-insert id r order refs c j v h = elim (Bool-cases (id == j)) [
  | inl e ↦ in-push_self j id (if is_some (lookup id refs) then without id order else order) e
  | inr e ↦
      in-push_old j id (if is_some (lookup id refs) then without id order else order)
        (in-either (is_some (lookup id refs)) j id order e (c j v (rw (lookup-insert, e) at h)))
]
