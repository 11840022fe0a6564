-- ===== src/Plane/Overdue.antt =====
-- crates/app/src/task_plane.rs: what `expire` leaves active.
use aivtuber.Common.{
  ℕ, ◌+◌, ◌<◌, ◌≡◌, ◌≢◌, ◌⊎◌, refl, sym, ◌∙◌, ap, inl, inr, subst, String, false, Option, none,
  some, List, [], ◌∷◌, ne_of_beq, Bool-cases, Option-cases, ◌==◌, eq_of_beq, beq_ne, string_eq,
  arith,
}
use mathlib.Core.Option.{some-injective}
use aivtuber.Common.Map.{lookup, insert}
use aivtuber.Task.Data
use aivtuber.Task.Data.{AgentTask, TaskTransition}
use aivtuber.Task.Operations.{is_terminal, expire_if_needed}
use aivtuber.Task.Calls.{error_of}
use aivtuber.Task.Invariant
use aivtuber.Task.Invariant.{IsValid}
use aivtuber.Plane.Data.{TaskPlane, ok}
use aivtuber.Plane.Operations.{expire_ids, expire, precedes, insert_key, sorted_keys}
use aivtuber.Plane.Reports
use aivtuber.Plane.Reports.{MayReport}
use aivtuber.Common.Each.{Each}
use aivtuber.Plane.Invariant.{PlaneValid}
use aivtuber.Plane.Steps.{Updates, write-Updates, accept_transition-Updates, find_task-active}
use aivtuber.Plane.Expiry.{settled, onward, expired-PlaneValid}

-- The keys of the map, in order, are the keys of the map.
Each-insert_key {κ} :
    (P : String → Type κ) (k : String) (ks : List String)
    → Each P (insert_key k ks)
    → P k × Each P ks
unfolding insert_key
Each-insert_key P k [] h = h
Each-insert_key P k (j ∷ js) h = elim (Bool-cases (precedes k j)) [
  | inl e ↦ rw (e, insert_key) at h
  | inr e ↦
      let (first, later) : P j × Each P (insert_key k js) = rw (e, insert_key) at h in
      let (mine, others) = Each-insert_key P k js later in (mine, (first, others))
]

module _ {R : Type 0} where
  expire_if_needed-clears :
      (t : AgentTask R) (now : ℕ)
      → is_terminal t ≡ false
      → error_of (expire_if_needed t now).1 ≡ none
      → is_terminal (expire_if_needed t now).0 ≡ false
      → now < (expire_if_needed t now).0.expires_at_ms
  unfolding expire_if_needed is_terminal
  expire_if_needed-clears t now open_ended fine still = ground arith

  settled-Updates :
      (p : TaskPlane R) (h : PlaneValid p) (id : String) (t u : AgentTask R)
      (r : Data.Result (Option TaskTransition))
      → lookup id p.active ≡ some t
      → MayReport t u r
      → Updates p id u (settled (record p { active = insert id u p.active }) r)
  settled-Updates p h id t u (Data.err e) at s = write-Updates p id u
  settled-Updates p h id t u (Data.ok none) at s = write-Updates p id u
  settled-Updates p h id t u (Data.ok (some x)) at s = accept_transition-Updates p h id t u at x s

  onward-ok :
      (ids : List String) (now n m : ℕ) (q z : TaskPlane R)
      (r : Data.Result (Option TaskTransition))
      → onward ids now n q r ≡ (z, ok m)
      → (error_of r ≡ none) × (k : ℕ) × (expire_ids (settled q r) ids now k ≡ (z, ok m))
  onward-ok ids now n m q z (Data.err e) h = absurd (ground arith)
  onward-ok ids now n m q z (Data.ok none) h = (refl, n, h)
  onward-ok ids now n m q z (Data.ok (some x)) h = (refl, n + 1, h)

  -- What is active after one round.
  round-left :
      (p q : TaskPlane R) (h : PlaneValid q) (id : String) (u : AgentTask R) (now : ℕ)
      → Updates p id u q
      → (is_terminal u ≡ false → now < u.expires_at_ms)
      → (j : String) (x : AgentTask R) → lookup j q.active ≡ some x
      → (now < x.expires_at_ms) ⊎ ((lookup j p.active ≡ some x) × (id ≢ j))
  round-left p q h id u now seen clear j x at = elim (Bool-cases (id == j)) [
    | inl e ↦
        let found = subst (λ i. lookup i q.active ≡ some x) (sym (eq_of_beq id j e)) at in
        let same = some-injective u x (sym seen.sees ∙ find_task-active q id x found) in
        inl (
          subst (λ (v : AgentTask R). now < v.expires_at_ms) same
            (clear (ap is_terminal same ∙ (h.known j x at).open_ended)))
    | inr e ↦ let ne = ne_of_beq id j e in inr (sym (seen.others j ne) ∙ at, ne)
  ]

  -- A task that is active after the loop is in time, or no round of the loop was about it.
  expire_ids-left :
      (p : TaskPlane R) (h : PlaneValid p) (ids : List String) (now n : ℕ) {q : TaskPlane R} {m : ℕ}
      → expire_ids p ids now n ≡ (q, ok m)
      → (j : String) (x : AgentTask R) → lookup j q.active ≡ some x
      → (now < x.expires_at_ms) ⊎ ((lookup j p.active ≡ some x) × Each (λ i. i ≢ j) ids)
  unfolding expire_ids
  expire_ids-left p h [] now n {q} e j x at =
      inr (subst (λ (z : TaskPlane R). lookup j z.active ≡ some x) (sym (ap (λ z. z.0) e)) at, tt)
  expire_ids-left p h (id ∷ ids) now n {q} {m} e j x at = elim (Option-cases (lookup id p.active)) [
    | inl absent ↦ absurd (ground arith)
    | inr (t, found) ↦
        let (u, r) = expire_if_needed t now in
        let k = h.known id t found in
        let s = Reports.expire_if_needed-MayReport t now in
        let valid =
          expired-PlaneValid p h id t u r found (Invariant.expire_if_needed-IsValid t k.valid now)
            s in
        let seen = settled-Updates p h id t u r found s in
        let rest : onward ids now n (record p { active = insert id u p.active }) r ≡ (q, ok m) =
          rw (found, expire_ids) at e in
        let (fine, again, go) =
          onward-ok ids now n m (record p { active = insert id u p.active }) q r rest in
        elim (expire_ids-left (settled (record p { active = insert id u p.active }) r) valid ids now
          again go j x at) [
            | inl in_time ↦ inl in_time
            | inr (old, away) ↦
                elim (round-left p (settled (record p { active = insert id u p.active }) r) valid id
                  u now seen (expire_if_needed-clears t now k.open_ended fine) j x old) [
                    | inl in_time ↦ inl in_time
                    | inr (older, ne) ↦ inr (older, (ne, away))
                  ]
          ]
  ]

  lookup-sorted_keys :
      (j : String) (m : List (String × AgentTask R)) (x : AgentTask R)
      → lookup j m ≡ some x
      → Each (λ i. i ≢ j) (sorted_keys m)
      → ⊥
  unfolding lookup sorted_keys
  lookup-sorted_keys j [] x e h = cc e
  lookup-sorted_keys j (entry ∷ rest) x e h =
      let (ne, away) = Each-insert_key (λ i. i ≢ j) entry.0 (sorted_keys rest) h in
      lookup-sorted_keys j rest x (rw (beq_ne entry.0 j ne) at e) away

  -- When `expire` succeeds on a plane that satisfies the invariant, no task is active whose deadline
  -- has come.
  pub expire-clears :
      (p : TaskPlane R) (now m : ℕ) {q : TaskPlane R}
      → PlaneValid p
      → expire p now ≡ (q, ok m)
      → (id : String) (t : AgentTask R) → lookup id q.active ≡ some t
      → now < t.expires_at_ms
  unfolding expire
  expire-clears p now m h e id t at =
      elim (expire_ids-left p h (sorted_keys p.active) now 0 e id t at) [
        | inl in_time ↦ in_time
        | inr (old, away) ↦ absurd (lookup-sorted_keys id p.active t old away)
      ]
