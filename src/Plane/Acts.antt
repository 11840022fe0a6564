-- ===== src/Plane/Acts.antt =====
-- crates/app/src/task_plane.rs: what the plane does with an operation of a task.
use aivtuber.Common.{◌≡◌, refl, String, Bool, true, false, Option, none, some, string_eq}
use aivtuber.Common.Map.{lookup, insert}
use aivtuber.Task.Data.{AgentTask, TaskTransition, TaskError, Result, ok, err}
use aivtuber.Task.Calls.{error_of}
use aivtuber.Task.Invariant.{IsValid}
use aivtuber.Plane.Data
use aivtuber.Plane.Data.{
  TaskPlane, TaskPlaneError, PlaneResult, task, task_not_active, unknown_task, find_task,
}
use aivtuber.Plane.Operations.{on_active, on_active_quietly, accept_transition, not_active}
use aivtuber.Plane.Reports.{Reports, Stays, Fits}
use aivtuber.Plane.Invariant.{PlaneValid, stay-PlaneValid, accept_transition-PlaneValid}
use aivtuber.Plane.Steps.{Updates, write-Updates, accept_transition-Updates, find_task-active}
use aivtuber.Plane.Calls.{failing}

abbrev pub is_refused {ℓ} : {A : Type ℓ} → Option A → Bool
is_refused none = false
is_refused (some e) = true

-- The error says that the task is not active.
abbrev pub is_absence : Option TaskPlaneError → Bool
is_absence (some (task_not_active id k)) = true
is_absence (some (unknown_task id)) = true
is_absence _ = false

-- A call of the plane keeps its invariant, shows the task that the task's own operation makes,
-- leaves the others alone, fails when that operation fails, and does not say that the task is not
-- active.
pub record Acts {R : Type 0} (p : TaskPlane R) (id : String) (o : AgentTask R × Option TaskError)
    (r : TaskPlane R × Option TaskPlaneError) : Type 0 where
  pub valid : PlaneValid r.0
  pub updates : Updates p id o.0 r.0
  pub alike : is_refused r.1 ≡ is_refused o.1
  pub present : is_absence r.1 ≡ false

module _ {R : Type 0} (p : TaskPlane R) (id : String) where
  -- A call on a task that is not active.
  pub on_active-none :
      (operation : AgentTask R → AgentTask R × Result TaskTransition)
      → lookup id p.active ≡ none
      → on_active p id operation ≡ (p, Data.err (not_active p id))
  unfolding on_active
  on_active-none operation e = rw (e, on_active)

  pub on_active_quietly-none {ℓ} :
      {A : Type ℓ} (operation : AgentTask R → AgentTask R × Result A)
      → lookup id p.active ≡ none
      → on_active_quietly p id operation ≡ (p, Data.err (not_active p id))
  unfolding on_active_quietly
  on_active_quietly-none operation e = rw (e, on_active_quietly)

  module _ (h : PlaneValid p) (t : AgentTask R) (at : lookup id p.active ≡ some t) where
    -- A call that is refused before the task's operation runs.
    pub refused-Acts :
        (e : TaskPlaneError) (f : TaskError)
        → is_absence (some e) ≡ false
        → Acts p id (t, some f) (p, some e)
    refused-Acts e f other = record {
      valid = h;
      updates = record { sees = find_task-active p id t at; others = λ j ne. refl };
      alike = refl;
      present = other;
    }

    settled-Acts :
        (o : AgentTask R × Result TaskTransition)
        → IsValid o.0
        → Reports t o.0 o.1
        → Acts p id
            (o.0, error_of o.1)
            (failing (elim o.1 as (λ _. TaskPlane R × PlaneResult TaskTransition) [
              | err e ↦ (record p { active = insert id o.0 p.active }, Data.err (task e))
              | ok x ↦
                  (accept_transition (record p { active = insert id o.0 p.active }) x, Data.ok x)
            ]))
    settled-Acts (u, err e) v s = record {
      valid = stay-PlaneValid p h id t u at v s;
      updates = write-Updates p id u;
      alike = refl;
      present = refl;
    }
    settled-Acts (u, ok x) v s = record {
      valid = accept_transition-PlaneValid p h id t u at v x s;
      updates = accept_transition-Updates p h id t u at x s;
      alike = refl;
      present = refl;
    }

    pub on_active-Acts :
        (operation : AgentTask R → AgentTask R × Result TaskTransition)
        → Fits t (operation t)
        → Acts p id ((operation t).0, error_of (operation t).1) (failing (on_active p id operation))
    unfolding on_active
    on_active-Acts operation fits =
        rw (at, on_active) (settled-Acts (operation t) fits.valid fits.reports)

    quiet-Acts {ℓ} :
        {A : Type ℓ} (o : AgentTask R × Result A)
        → IsValid o.0
        → Stays t o.0
        → Acts p id
            (o.0, error_of o.1)
            (failing (elim o.1 as (λ _. TaskPlane R × PlaneResult A) [
              | err e ↦ (record p { active = insert id o.0 p.active }, Data.err (task e))
              | ok x ↦ (record p { active = insert id o.0 p.active }, Data.ok x)
            ]))
    quiet-Acts (u, err e) v s = record {
      valid = stay-PlaneValid p h id t u at v s;
      updates = write-Updates p id u;
      alike = refl;
      present = refl;
    }
    quiet-Acts (u, ok x) v s = record {
      valid = stay-PlaneValid p h id t u at v s;
      updates = write-Updates p id u;
      alike = refl;
      present = refl;
    }

    pub on_active_quietly-Acts {ℓ} :
        {A : Type ℓ} (operation : AgentTask R → AgentTask R × Result A)
        → IsValid (operation t).0
        → Stays t (operation t).0
        → Acts p id
            ((operation t).0, error_of (operation t).1)
            (failing (on_active_quietly p id operation))
    unfolding on_active_quietly
    on_active_quietly-Acts operation v s = rw (at, on_active_quietly) (quiet-Acts (operation t) v s)
