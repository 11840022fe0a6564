-- ===== src/Plane/Expiry.antt =====
-- crates/app/src/task_plane.rs: the loop of `expire`.
use aivtuber.Common.{
  ℕ, ◌+◌, ◌≡◌, inl, inr, String, Option, none, some, List, [], ◌∷◌, Option-cases, string_eq,
}
use aivtuber.Common.Map.{lookup, insert}
use aivtuber.Task.Data
use aivtuber.Task.Data.{AgentTask, TaskLimits, TaskTransition, kind, validate_limits}
use aivtuber.Task.Operations.{expire_if_needed}
use aivtuber.Task.Invariant
use aivtuber.Task.Invariant.{IsValid}
use aivtuber.Plane.Data.{TaskPlane, PlaneResult, err, task}
use aivtuber.Plane.Operations.{expire_ids, accept_transition}
use aivtuber.Plane.Reports
use aivtuber.Plane.Reports.{MayReport}
use aivtuber.Plane.Invariant.{PlaneValid, stay-PlaneValid, accept_transition-PlaneValid}

module _ {R : Type 0} where
  -- The plane after a task of the loop of `expire`.
  abbrev pub settled : TaskPlane R → Data.Result (Option TaskTransition) → TaskPlane R
  settled q (Data.err e) = q
  settled q (Data.ok none) = q
  settled q (Data.ok (some x)) = accept_transition q x

  module _ (p : TaskPlane R) (h : PlaneValid p) where
    -- A task of the loop: what `expire_if_needed` makes of it is written back and reported.
    pub expired-PlaneValid :
        (id : String) (t u : AgentTask R) (r : Data.Result (Option TaskTransition))
        → lookup id p.active ≡ some t
        → IsValid u
        → MayReport t u r
        → PlaneValid (settled (record p { active = insert id u p.active }) r)
    expired-PlaneValid id t u (Data.err e) at v s = stay-PlaneValid p h id t u at v s
    expired-PlaneValid id t u (Data.ok none) at v s = stay-PlaneValid p h id t u at v s
    expired-PlaneValid id t u (Data.ok (some x)) at v s =
        accept_transition-PlaneValid p h id t u at v x s

  -- The rest of the loop.
  module _ (ids : List String) (now n : ℕ) where
    abbrev pub onward :
        TaskPlane R → Data.Result (Option TaskTransition) → TaskPlane R × PlaneResult ℕ
    onward q r = elim r [
      | Data.err e ↦ (q, err (task e))
      | Data.ok none ↦ expire_ids q ids now n
      | Data.ok (some x) ↦ expire_ids (accept_transition q x) ids now (n + 1)
    ]

    onward-PlaneValid :
        (q : TaskPlane R) (r : Data.Result (Option TaskTransition))
        → PlaneValid (settled q r)
        → ((q : TaskPlane R) (m : ℕ) → PlaneValid q → PlaneValid (expire_ids q ids now m).0)
        → PlaneValid (onward q r).0
    onward-PlaneValid q (Data.err e) g next = g
    onward-PlaneValid q (Data.ok none) g next = next q n g
    onward-PlaneValid q (Data.ok (some x)) g next = next (accept_transition q x) (n + 1) g

  pub expire_ids-PlaneValid :
      (p : TaskPlane R) (h : PlaneValid p) (ids : List String) (now n : ℕ)
      → PlaneValid (expire_ids p ids now n).0
  unfolding expire_ids
  expire_ids-PlaneValid p h [] now n = h
  expire_ids-PlaneValid p h (id ∷ ids) now n = elim (Option-cases (lookup id p.active)) [
    | inl absent ↦ rw (absent, expire_ids) h
    | inr (t, at) ↦
        let (u, r) = expire_if_needed t now in
        rw (at, expire_ids)
          (onward-PlaneValid ids now n (record p { active = insert id u p.active }) r
            (expired-PlaneValid p h id t u r at
              (Invariant.expire_if_needed-IsValid t (h.known id t at).valid now)
              (Reports.expire_if_needed-MayReport t now))
            (λ q m g. expire_ids-PlaneValid q g ids now m))
  ]
