-- ===== src/Plane/Absent.antt =====
-- crates/app/src/task_plane.rs, `active_mut`: when a call answers that its task is not active.
use aivtuber.Common.{
  ℕ, zero, suc, ◌<◌, ◌≡◌, ◌≢◌, ◌↔◌, ◌⊎◌, refl, sym, ap, ◌∙◌, inl, inr, String, true, false, Option,
  none, some, List, [], ◌∷◌, get_elem?, ltb, ◌==◌, Option-cases, Bool-cases, string_eq, beq_self,
  arith,
}
use mathlib.Core.Option.{some-injective}
use aivtuber.Common.Map.{lookup}
use aivtuber.Task.Data.{AgentTask, TaskStateKind, kind}
use aivtuber.Task.Calls.{Call}
use aivtuber.Plane.Data.{TaskPlane, TaskPlaneError, find_retained, task_not_active, unknown_task}
use aivtuber.Plane.Operations.{not_active}
use aivtuber.Plane.Invariant.{PlaneValid}
use aivtuber.Plane.Calls.{PlaneCall, plane_call, target}
use aivtuber.Plane.Acts.{is_absence}
use aivtuber.Plane.Refines.{plane_call-Acts}
use aivtuber.Plane.Reachable.{plane_call-none}

module _ {R : Type 0} where
  -- No task of the list has the identifier.
  abbrev pub IsUnlisted : String → List (AgentTask R) → Type 0
  IsUnlisted id ts = (i : ℕ) (t : AgentTask R) → get_elem? ts i ≡ some t → t.id ≢ id

  -- `t` is the last task of the list with the identifier.
  pub record IsLatest (id : String) (ts : List (AgentTask R)) (t : AgentTask R) : Type 0 where
    pub index : ℕ
    pub at : get_elem? ts index ≡ some t
    pub named : t.id ≡ id
    pub last : (j : ℕ) (u : AgentTask R) → index < j → get_elem? ts j ≡ some u → u.id ≢ id

  find_retained-none :
      (id : String) (ts : List (AgentTask R)) → find_retained id ts ≡ none → IsUnlisted id ts
  unfolding find_retained
  find_retained-none id [] h i t at same = cc at
  find_retained-none id (x ∷ xs) h zero t at same =
      let head : x ≡ t = some-injective x t at in
      let hit : (x.id == id) ≡ true = rw (head, same) (beq_self id) in ground arith
  find_retained-none id (x ∷ xs) h (suc i) t at same =
      find_retained-none id xs (ground arith) i t at same

  later_than :
      {id : String} (xs : List (AgentTask R)) (i j : ℕ) (u x : AgentTask R)
      → suc i < j
      → get_elem? (x ∷ xs) j ≡ some u
      → ((m : ℕ) (v : AgentTask R) → i < m → get_elem? xs m ≡ some v → v.id ≢ id)
      → u.id ≢ id
  later_than xs i zero u x before at last = absurd (omega arith)
  later_than xs i (suc j) u x before at last = last j u (omega arith) at

  none_after :
      {id : String} (xs : List (AgentTask R)) (j : ℕ) (u x : AgentTask R)
      → 0 < j
      → get_elem? (x ∷ xs) j ≡ some u
      → IsUnlisted id xs
      → u.id ≢ id
  none_after xs zero u x before at unlisted = absurd (omega arith)
  none_after xs (suc j) u x before at unlisted = unlisted j u at

  find_retained-some :
      (id : String) (ts : List (AgentTask R)) {t : AgentTask R}
      → find_retained id ts ≡ some t
      → IsLatest id ts t
  unfolding find_retained
  find_retained-some id [] h = absurd (cc h)
  find_retained-some id (x ∷ xs) {t} h = elim (Option-cases (find_retained id xs)) [
    | inr (u, found) ↦
        let rest = find_retained-some id xs found in
        let same : u ≡ t = ground arith in
        record {
          index = suc rest.index;
          at = rest.at ∙ ap some same;
          named = ap (λ (v : AgentTask R). v.id) (sym same) ∙ rest.named;
          last = λ j v before at. later_than xs rest.index j v x before at (rest.last);
        }
    | inl absent ↦
        let hit : (x.id == id) ≡ true = ground arith in
        let same : x ≡ t = ground arith in
        record {
          index = 0;
          at = ap some same;
          named = ground (arith, string_eq.same_iff x.id id);
          last = λ j v before at. none_after xs j v x before at (find_retained-none id xs absent);
        }
  ]

  latest_unique :
      (id : String) (ts : List (AgentTask R)) (t u : AgentTask R)
      → IsLatest id ts t
      → IsLatest id ts u
      → t ≡ u
  latest_unique id ts t u a b = elim (Bool-cases (ltb a.index b.index)) [
    | inl before ↦ absurd (a.last b.index u (ground arith) b.at b.named)
    | inr not_before ↦ elim (Bool-cases (ltb b.index a.index)) [
      | inl after ↦ absurd (b.last a.index t (ground arith) a.at a.named)
      | inr not_after ↦
          let same : a.index ≡ b.index = ground arith in
          some-injective t u (sym a.at ∙ ap (λ i. get_elem? ts i) same ∙ b.at)
    ]
  ]

  find_retained-none_iff :
      (id : String) (ts : List (AgentTask R)) → (find_retained id ts ≡ none) ↔ IsUnlisted id ts
  find_retained-none_iff id ts = (
    find_retained-none id ts,
    λ h. elim (Option-cases (find_retained id ts)) [
      | inl e ↦ e
      | inr (t, e) ↦
          let latest = find_retained-some id ts e in
          absurd (h latest.index t latest.at latest.named)
    ],
  )

  find_retained-some_iff :
      (id : String) (ts : List (AgentTask R)) (t : AgentTask R)
      → (find_retained id ts ≡ some t) ↔ IsLatest id ts t
  find_retained-some_iff id ts t = (
    λ e. find_retained-some id ts e,
    λ h. elim (Option-cases (find_retained id ts)) [
      | inl e ↦ absurd (find_retained-none id ts e h.index t h.at h.named)
      | inr (u, e) ↦ e ∙ ap some (latest_unique id ts u t (find_retained-some id ts e) h)
    ],
  )

  not_active-unknown :
      (p : TaskPlane R) (id : String)
      → (not_active p id ≡ unknown_task id) ↔ IsUnlisted id p.retained
  unfolding not_active
  not_active-unknown p id = elim (Option-cases (find_retained id p.retained)) [
    | inl e ↦ ((λ q. (find_retained-none_iff id p.retained).0 e), (λ h. rw (e, not_active)))
    | inr (t, e) ↦ (
      (λ q. absurd (ground arith)),
      (λ h. cc (sym e ∙ (find_retained-none_iff id p.retained).1 h)),
    )
  ]

  not_active-ended :
      (p : TaskPlane R) (id : String) (k : TaskStateKind)
      → (not_active p id ≡ task_not_active id k)
        ↔ ((t : AgentTask R) × IsLatest id p.retained t × (kind t.state ≡ k))
  unfolding not_active
  not_active-ended p id k = elim (Option-cases (find_retained id p.retained)) [
    | inl e ↦ (
      (λ q. absurd (ground arith)),
      (λ (t, h, same). cc (sym e ∙ (find_retained-some_iff id p.retained t).1 h)),
    )
    | inr (t, e) ↦ (
      (λ q. (t, (find_retained-some_iff id p.retained t).0 e, ground arith)),
      (λ (u, h, same). rw ((find_retained-some_iff id p.retained u).1 h, same, not_active)),
    )
  ]

  -- On a plane that satisfies the invariant, a call that names a task answers that the task is
  -- unknown exactly if no active and no retained task has that identifier; it answers that the task
  -- has ended in some kind of state exactly if it is not active and the last retained task with
  -- that identifier is in such a state; and a call that names no active task changes nothing.
  pub plane_call-absent_iff :
      (p : TaskPlane R) (c : PlaneCall R) (id : String) (k : Call R)
      → PlaneValid p
      → target c ≡ some (id, k)
      → (((plane_call p c).1 ≡ some (unknown_task id))
          ↔ ((lookup id p.active ≡ none) × IsUnlisted id p.retained))
        × ((s : TaskStateKind)
            → ((plane_call p c).1 ≡ some (task_not_active id s)) ↔ (
                (lookup id p.active ≡ none)
                × ((t : AgentTask R) × IsLatest id p.retained t × (kind t.state ≡ s))))
        × (((plane_call p c).0 ≡ p) ⊎ (lookup id p.active ≢ none))
  plane_call-absent_iff p c id k h e = elim (Option-cases (lookup id p.active)) [
    | inl absent ↦ rw (plane_call-none p c id k e absent) (
      (
        (λ q. (absent, (not_active-unknown p id).0 (some-injective _ _ q))),
        (λ m. ap some ((not_active-unknown p id).1 m.1)),
      ),
      (λ s. (
        (λ q. (absent, (not_active-ended p id s).0 (some-injective _ _ q))),
        (λ m. ap some ((not_active-ended p id s).1 m.1)),
      )),
      inl refl,
    )
    | inr (t, at) ↦
        let present = (plane_call-Acts p h id t at c k e).present in
        (
          ((λ q. absurd (spoken q refl present)), (λ m. cc (at, m.0))),
          (λ s. ((λ q. absurd (spoken q refl present)), (λ m. cc (at, m.0)))),
          inr (λ gone. cc (at, gone)),
        )
  ]
    where
      spoken :
          {r o : Option TaskPlaneError} → r ≡ o → is_absence o ≡ true → is_absence r ≡ false → ⊥
      spoken q on off = cc (sym (ap is_absence q ∙ on) ∙ off)
