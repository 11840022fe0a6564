-- ===== src/Plane/Invariant.antt =====
-- crates/app/src/task_plane.rs: what holds of the task plane between two calls, and the three steps
-- that its operations are made of.
use aivtuber.Common.{
  ◌≤◌, ◌<◌, ◌≡◌, ◌≢◌, ◌⊎◌, sym, ◌∙◌, subst, inl, inr, String, true, false, none, some, List, [],
  ◌∷◌, ◌++◌, length, ◌==◌, string_eq, eq_of_beq, beq_self, beq_ne, Bool-cases, arith,
}
use mathlib.Core.Option.{some-injective}
use aivtuber.Common.Map.{
  lookup, insert, remove, lookup-insert, lookup-remove, length-insert_old, length-remove,
}
use aivtuber.Task.Data.{AgentTask, TaskTransition, is_terminal_kind}
use aivtuber.Task.Operations.{is_terminal}
use aivtuber.Task.Invariant.{IsValid}
use aivtuber.Plane.Collector.{collect, length-trim_records}
use aivtuber.Plane.Data.{TaskPlane, find_retained}
use aivtuber.Plane.Operations.{retain_task, accept_transition}
use aivtuber.Plane.Reports.{Names, Stays}
use aivtuber.Common.Each.{Each, Each-push}
use aivtuber.Plane.Retained.{
  Each-trim_retained, length-trim_retained, find_retained-push, find_retained-trim_none,
}

module _ {R : Type 0} where
  -- An active task is filed by its identifier, is valid and has not ended.
  pub record IsActive (id : String) (t : AgentTask R) : Type 0 where
    pub named : t.id ≡ id
    pub valid : IsValid t
    pub open_ended : is_terminal t ≡ false

  pub record HasEnded (t : AgentTask R) : Type 0 where
    pub valid : IsValid t
    pub terminal : is_terminal t ≡ true

  pub record PlaneValid (p : TaskPlane R) : Type 0 where
    pub known : (id : String) (t : AgentTask R) → lookup id p.active ≡ some t → IsActive id t
    pub ended : Each HasEnded p.retained
    pub apart :
        (id : String) (t : AgentTask R)
        → lookup id p.active ≡ some t
        → find_retained id p.retained ≡ none
    pub active_capped : length p.active ≤ p.config.max_active_tasks
    pub retained_capped : length p.retained ≤ p.config.max_retained_tasks
    pub room : 0 < p.config.max_retained_tasks
    pub records_capped : length p.transitions.records ≤ p.transitions.max_records
    pub records_bound : p.transitions.max_records ≡ p.config.max_transition_records

  -- The entry of a map after a write, as one of two cases.
  pub lookup-insert_cases :
      (k j : String) (u t : AgentTask R) (m : List (String × AgentTask R))
      → lookup j (insert k u m) ≡ some t
      → ((k ≡ j) × (u ≡ t)) ⊎ (lookup j m ≡ some t)
  lookup-insert_cases k j u t m h = elim (Bool-cases (k == j)) [
    | inl e ↦ inl (eq_of_beq k j e, some-injective u t (rw (lookup-insert, e) at h))
    | inr e ↦ inr (rw (lookup-insert, e) at h)
  ]

  lookup-remove_cases :
      (k j : String) (t : AgentTask R) (m : List (String × AgentTask R))
      → lookup j (remove k m) ≡ some t
      → (k ≢ j) × (lookup j m ≡ some t)
  lookup-remove_cases k j t m h = elim (Bool-cases (k == j)) [
    | inl e ↦ let gone : lookup j (remove k m) ≡ none = rw (lookup-remove, e) in cc (h, gone)
    | inr e ↦ (λ same. cc (beq_self j, e, same), rw (lookup-remove, e) at h)
  ]

  module _ (p : TaskPlane R) (h : PlaneValid p) where
    pub collect-PlaneValid :
        (x : TaskTransition) → PlaneValid (record p { transitions = collect p.transitions x })
    unfolding collect
    collect-PlaneValid x = record {
      known = h.known;
      ended = h.ended;
      apart = h.apart;
      active_capped = h.active_capped;
      retained_capped = h.retained_capped;
      room = h.room;
      records_capped =
          length-trim_records p.transitions.max_records (p.transitions.records ++ x ∷ [])
            p.transitions.evicted;
      records_bound = h.records_bound;
    }

    -- An active task that is written back.
    pub write-PlaneValid :
        (id : String) (t u : AgentTask R)
        → lookup id p.active ≡ some t
        → IsActive id u
        → PlaneValid (record p { active = insert id u p.active })
    write-PlaneValid id t u at v = record {
      known = λ j x e. elim (lookup-insert_cases id j u x p.active e) [
        | inl (k, same) ↦ subst (IsActive j) same (subst (λ i. IsActive i u) k v)
        | inr old ↦ h.known j x old
      ];
      ended = h.ended;
      apart = λ j x e. elim (lookup-insert_cases id j u x p.active e) [
        | inl (k, same) ↦ subst (λ i. find_retained i p.retained ≡ none) k (h.apart id t at)
        | inr old ↦ h.apart j x old
      ];
      active_capped = omega (arith, length-insert_old id u t p.active at, h.active_capped);
      retained_capped = h.retained_capped;
      room = h.room;
      records_capped = h.records_capped;
      records_bound = h.records_bound;
    }

    -- A task that has ended moves to the retained ones.
    pub retain_task-PlaneValid :
        (id : String) (t u : AgentTask R)
        → lookup id p.active ≡ some t
        → u.id ≡ id
        → HasEnded u
        → PlaneValid (retain_task (record p { active = insert id u p.active }) id u)
    unfolding retain_task
    retain_task-PlaneValid id t u at named v =
        let still =
          λ (j : String) (x : AgentTask R)
              (e : lookup j (remove id (insert id u p.active)) ≡ some x).
            still_active id u j x e in
        record {
          known = λ j x e. h.known j x (still j x e).1;
          ended =
              Each-trim_retained HasEnded p.config.max_retained_tasks (p.retained ++ u ∷ [])
                (Each-push HasEnded p.retained u v h.ended);
          apart = λ j x e.
              let (ne, old) = still j x e in
              let other : (u.id == j) ≡ false = rw named (beq_ne id j ne) in
              find_retained-trim_none j p.config.max_retained_tasks (p.retained ++ u ∷ [])
                (rw (find_retained-push, other) (h.apart j x old));
          active_capped = shorter;
          retained_capped = length-trim_retained p.config.max_retained_tasks (p.retained ++ u ∷ []);
          room = h.room;
          records_capped = h.records_capped;
          records_bound = h.records_bound;
        }
      where
        shorter : length (remove id (insert id u p.active)) ≤ p.config.max_active_tasks
        shorter = omega (
          arith,
          length-remove id (insert id u p.active),
          length-insert_old id u t p.active at,
          h.active_capped,
        )

        still_active :
            (id : String) (u : AgentTask R) (j : String) (x : AgentTask R)
            → lookup j (remove id (insert id u p.active)) ≡ some x
            → (id ≢ j) × (lookup j p.active ≡ some x)
        still_active id u j x e =
            let (ne, old) = lookup-remove_cases id j x (insert id u p.active) e in
            (
              ne,
              elim (lookup-insert_cases id j u x p.active old) [
                | inl (k, _) ↦ absurd (ne k)
                | inr older ↦ older
              ],
            )

  pub lookup-insert_self :
      (id : String) (u : AgentTask R) (m : List (String × AgentTask R))
      → lookup id (insert id u m) ≡ some u
  lookup-insert_self id u m = rw (lookup-insert, beq_self id)

  pub accept_transition-terminal :
      (q : TaskPlane R) (x : TaskTransition) (u : AgentTask R)
      → is_terminal_kind x.to ≡ true
      → lookup x.task_id q.active ≡ some u
      → accept_transition q x
        ≡ retain_task (record q { transitions = collect q.transitions x }) x.task_id u
  unfolding accept_transition retain_task
  accept_transition-terminal q x u over found = rw (over, found, accept_transition)

  pub accept_transition-open :
      (q : TaskPlane R) (x : TaskTransition)
      → is_terminal_kind x.to ≡ false
      → accept_transition q x ≡ record q { transitions = collect q.transitions x }
  unfolding accept_transition collect
  accept_transition-open q x over = rw (over, accept_transition)

  -- A task written back, and the transition that its operation reported.
  module _ (p : TaskPlane R) (h : PlaneValid p) (id : String) (t u : AgentTask R)
      (at : lookup id p.active ≡ some t) (v : IsValid u) where
    pub stay-PlaneValid : Stays t u → PlaneValid (record p { active = insert id u p.active })
    stay-PlaneValid (same, on) =
        let k = h.known id t at in
        write-PlaneValid p h id t u at
          (record { named = same ∙ k.named; valid = v; open_ended = on k.open_ended })

    pub accept_transition-PlaneValid :
        (x : TaskTransition)
        → Names t u x
        → PlaneValid (accept_transition (record p { active = insert id u p.active }) x)
    accept_transition-PlaneValid x (same, by, to) =
        let k = h.known id t at in
        let q = record p { active = insert id u p.active } in
        let r = record p { transitions = collect p.transitions x } in
        let g = collect-PlaneValid p h x in
        let filed : x.task_id ≡ id = by ∙ k.named in
        elim (Bool-cases (is_terminal u)) [
          | inl e ↦
              let found =
                subst (λ i. lookup i q.active ≡ some u) (sym filed)
                  (lookup-insert_self id u p.active) in
              subst PlaneValid
                (sym (accept_transition-terminal q x u (rw to (unfold is_terminal in e)) found))
                (subst
                  (λ i.
                    PlaneValid
                      (retain_task (record q { transitions = collect p.transitions x }) i u))
                  (sym filed)
                  (retain_task-PlaneValid r g id t u at (same ∙ k.named)
                    (record { valid = v; terminal = e })))
          | inr e ↦
              subst PlaneValid (sym (accept_transition-open q x (rw to (unfold is_terminal in e))))
                (write-PlaneValid r g id t u at
                  (record { named = same ∙ k.named; valid = v; open_ended = e }))
        ]
