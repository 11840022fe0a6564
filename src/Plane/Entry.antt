-- ===== src/Plane/Entry.antt =====
-- crates/app/src/task_plane.rs: how tasks enter the plane.
use aivtuber.Common.{
  ℕ, ◌<◌, ◌≡◌, ◌⊎◌, refl, inl, inr, subst, String, false, none, [], length, Bool-cases,
  Option-cases, leb, string_eq, arith,
}
use aivtuber.Common.Map.{lookup, insert, length-insert}
use aivtuber.Task.Data
use aivtuber.Task.Data.{AgentTask, TaskLimits, TaskTransition, kind, validate_limits}
use aivtuber.Task.Operations.{new_task, is_terminal}
use aivtuber.Task.Lifecycle.{new_task-IsValid}
use aivtuber.Plane.Collector.{with_retention}
use aivtuber.Plane.Data.{
  TaskPlane, TaskPlaneConfig, TaskPlaneError, PlaneResult, ok, err, validate_config, new_plane,
  find_retained, find_task,
}
use aivtuber.Plane.Operations.{create_task}
use aivtuber.Plane.Invariant.{PlaneValid, IsActive, lookup-insert_cases}
use aivtuber.Plane.Steps.{Result-cases}

PlaneResult-cases {ℓ} :
    {A : Type ℓ} (r : PlaneResult A) → ((e : TaskPlaneError) × (r ≡ err e)) ⊎ ((x : A) × (r ≡ ok x))
PlaneResult-cases (err e) = inl (e, refl)
PlaneResult-cases (ok x) = inr (x, refl)

PlaneResult-injective {ℓ} : {A : Type ℓ} (x y : A) → ok x ≡ ok y → x ≡ y
PlaneResult-injective x y e = cc e

validate_config-ok :
    (config c : TaskPlaneConfig)
    → validate_config config ≡ ok c
    → (c ≡ config) × (0 < config.max_retained_tasks)
unfolding validate_config
validate_config-ok config c e = ground arith

module _ {R : Type 0} where
  -- A plane without tasks.
  abbrev bare : TaskPlaneConfig → TaskPlane R
  bare c = record {
    active = [];
    retained = [];
    transitions = with_retention c.max_transition_records;
    config = c;
  }

  bare-PlaneValid : (c : TaskPlaneConfig) → 0 < c.max_retained_tasks → PlaneValid (bare c)
  unfolding lookup
  bare-PlaneValid c room = record {
    known = λ id t e. cc e;
    ended = tt;
    apart = λ id t e. cc e;
    active_capped = omega arith;
    retained_capped = omega arith;
    room = room;
    records_capped = omega arith;
    records_bound = refl;
  }

  pub new_plane-PlaneValid :
      (config : TaskPlaneConfig) {p : TaskPlane R} → new_plane config ≡ ok p → PlaneValid p
  unfolding new_plane
  new_plane-PlaneValid config {p} e = elim (PlaneResult-cases (validate_config config)) [
    | inl (w, bad) ↦ absurd (ground arith)
    | inr (c, good) ↦
        let (same, room) = validate_config-ok config c good in
        let made : ok (bare c) ≡ ok p = rw (good, new_plane) at e in
        subst PlaneValid (PlaneResult-injective (bare c) p made) (bare-PlaneValid c (rw same room))
  ]

  new_task-open :
      (id text : String) (at_ms : ℕ) (l : TaskLimits) {t : AgentTask R}
      → new_task id text at_ms l ≡ Data.ok t
      → (t.id ≡ id) × (is_terminal t ≡ false)
  unfolding new_task is_terminal validate_limits
  new_task-open id text at_ms l e = ground arith

  find_task-none :
      (p : TaskPlane R) (id : String)
      → find_task p id ≡ none
      → (lookup id p.active ≡ none) × (find_retained id p.retained ≡ none)
  unfolding find_task
  find_task-none p id e = elim (Option-cases (lookup id p.active)) [
    | inl absent ↦ (absent, rw (absent, find_task) at e)
    | inr (t, found) ↦ absurd (ground arith)
  ]

  module _ (p : TaskPlane R) (h : PlaneValid p) where
    pub enter-PlaneValid :
        (id : String) (t : AgentTask R)
        → find_task p id ≡ none
        → length p.active < p.config.max_active_tasks
        → IsActive id t
        → PlaneValid (record p { active = insert id t p.active })
    enter-PlaneValid id t absent room v = record {
      known = λ j x e. elim (lookup-insert_cases id j t x p.active e) [
        | inl (k, same) ↦ subst (IsActive j) same (subst (λ i. IsActive i t) k v)
        | inr old ↦ h.known j x old
      ];
      ended = h.ended;
      apart = λ j x e. elim (lookup-insert_cases id j t x p.active e) [
        | inl (k, same) ↦
            subst (λ i. find_retained i p.retained ≡ none) k (find_task-none p id absent).1
        | inr old ↦ h.apart j x old
      ];
      active_capped = omega (arith, length-insert id t p.active, room);
      retained_capped = h.retained_capped;
      room = h.room;
      records_capped = h.records_capped;
      records_bound = h.records_bound;
    }

    pub create_task-PlaneValid :
        (id text : String) (at_ms : ℕ) (l : TaskLimits)
        → PlaneValid (create_task p id text at_ms l).0
    unfolding create_task
    create_task-PlaneValid id text at_ms l = elim (Option-cases (find_task p id)) [
      | inr (t, known) ↦ rw (known, create_task) h
      | inl absent ↦ elim (Bool-cases (leb p.config.max_active_tasks (length p.active))) [
        | inl full ↦ rw (absent, full, create_task) h
        | inr room ↦ elim (Result-cases (new_task {R = R} id text at_ms l)) [
          | inl (e, bad) ↦ rw (absent, room, bad, create_task) h
          | inr (t, made) ↦
              let (named, open_ended) = new_task-open id text at_ms l made in
              rw (absent, room, made, create_task)
                (enter-PlaneValid id t absent (ground arith) (record {
                  named = named;
                  valid = new_task-IsValid id text at_ms l made;
                  open_ended = open_ended;
                }))
        ]
      ]
    ]
