-- ===== src/Plane/Steps.antt =====
-- crates/app/src/task_plane.rs: every operation keeps the invariant, and acts on the task with its
-- identifier alone.
use aivtuber.Common.{
  ◌≡◌, ◌≢◌, ◌⊎◌, refl, sym, ◌∙◌, subst, inl, inr, String, none, some, List, ◌<◌, string_eq,
  beq_self, beq_ne, Bool-cases,
}
use aivtuber.Common.Map.{lookup, insert, remove, lookup-insert, lookup-remove}
use aivtuber.Task.Data.{AgentTask, TaskTransition, TaskError, Result, ok, err}
use aivtuber.Task.Operations.{is_terminal}
use aivtuber.Plane.Data.{TaskPlane, find_retained, find_task}
use aivtuber.Plane.Operations.{accept_transition, retain_task}
use aivtuber.Plane.Collector.{TaskTransitionCollector, collect}
use aivtuber.Plane.Reports.{Names}
use aivtuber.Plane.Retained.{find_retained-trim_last}
use aivtuber.Plane.Invariant.{
  PlaneValid, accept_transition-terminal, accept_transition-open, lookup-insert_self,
}

pub Result-cases {ℓ} :
    {A : Type ℓ} (r : Result A) → ((e : TaskError) × (r ≡ err e)) ⊎ ((x : A) × (r ≡ ok x))
Result-cases (err e) = inl (e, refl)
Result-cases (ok x) = inr (x, refl)

-- What a client of the plane sees of the task `id` after a call: the task `u`. The other active
-- tasks are as they were.
pub record Updates {R : Type 0} (p : TaskPlane R) (id : String) (u : AgentTask R) (q : TaskPlane R)
    : Type 0 where
  pub sees : find_task q id ≡ some u
  pub others : (j : String) → id ≢ j → lookup j q.active ≡ lookup j p.active

module _ {R : Type 0} where
  pub lookup-insert_ne :
      (id j : String) (u : AgentTask R) (m : List (String × AgentTask R))
      → id ≢ j
      → lookup j (insert id u m) ≡ lookup j m
  lookup-insert_ne id j u m ne = rw (lookup-insert, beq_ne id j ne)

  pub find_task-active :
      (q : TaskPlane R) (id : String) (u : AgentTask R)
      → lookup id q.active ≡ some u
      → find_task q id ≡ some u
  unfolding find_task
  find_task-active q id u e = rw (e, find_task)

  pub find_task-retained :
      (q : TaskPlane R) (id : String)
      → lookup id q.active ≡ none
      → find_task q id ≡ find_retained id q.retained
  unfolding find_task
  find_task-retained q id e = rw (e, find_task)

  pub write-Updates :
      (p : TaskPlane R) (id : String) (u : AgentTask R)
      → Updates p id u (record p { active = insert id u p.active })
  write-Updates p id u = record {
    sees =
        find_task-active (record p { active = insert id u p.active }) id u
          (lookup-insert_self id u p.active);
    others = λ j ne. lookup-insert_ne id j u p.active ne;
  }

  retain_task-Updates :
      (p : TaskPlane R) (id : String) (u : AgentTask R)
      → 0 < p.config.max_retained_tasks
      → u.id ≡ id
      → Updates p id u (retain_task (record p { active = insert id u p.active }) id u)
  unfolding retain_task
  retain_task-Updates p id u room named =
      let q = record p { active = insert id u p.active } in
      let gone : lookup id (remove id q.active) ≡ none = rw (lookup-remove, beq_self id) in
      record {
        sees =
            find_task-retained (retain_task q id u) id gone
            ∙ find_retained-trim_last p.config.max_retained_tasks p.retained u id room
                (rw named (beq_self id));
        others = λ j ne. rw (lookup-remove, beq_ne id j ne) (lookup-insert_ne id j u p.active ne);
      }

  module _ (p : TaskPlane R) (h : PlaneValid p) (id : String) (t u : AgentTask R)
      (at : lookup id p.active ≡ some t) where
    pub accept_transition-Updates :
        (x : TaskTransition)
        → Names t u x
        → Updates p id u (accept_transition (record p { active = insert id u p.active }) x)
    accept_transition-Updates x (same, by, to) =
        let k = h.known id t at in
        let q = record p { active = insert id u p.active } in
        let filed : x.task_id ≡ id = by ∙ k.named in
        elim (Bool-cases (is_terminal u)) [
          | inl e ↦
              let found =
                subst (λ i. lookup i q.active ≡ some u) (sym filed)
                  (lookup-insert_self id u p.active) in
              let moved =
                accept_transition-terminal q x u (rw to (unfold is_terminal in e)) found in
              subst (Updates p id u) (sym moved) (
                subst
                  (λ i.
                    Updates p id u
                      (retain_task (record q { transitions = collect p.transitions x }) i u))
                  (sym filed)
                  (reported (
                    retain_task-Updates (record p { transitions = collect p.transitions x }) id u
                      h.room (same ∙ k.named))))
          | inr e ↦
              subst (Updates p id u)
                (sym (accept_transition-open q x (rw to (unfold is_terminal in e))))
                (reported (write-Updates (record p { transitions = collect p.transitions x }) id u))
        ]
      where
        -- The bounded record of transitions is no part of the view.
        reported :
            {c : TaskTransitionCollector} {q : TaskPlane R}
            → Updates (record p { transitions = c }) id u q
            → Updates p id u q
        reported v = record { sees = v.sees; others = v.others }
