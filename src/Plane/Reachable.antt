-- ===== src/Plane/Reachable.antt =====
-- crates/app/src/task_plane.rs: what every sequence of calls on the plane keeps, and what a call
-- does to the task that it names.
use aivtuber.Common.{
  ℕ, ◌≡◌, ◌≢◌, refl, sym, ap, subst, inl, inr, String, Option, none, some, List, [], ◌∷◌,
  Option-cases, string_eq,
}
use aivtuber.Common.Map.{lookup}
use mathlib.Core.Option.{some-injective}
use aivtuber.Task.Data.{AgentTask, VerificationResult}
use aivtuber.Task.Operations.{
  begin_planning, add_step, mark_ready, wait_for, resume, begin_execution,
}
use aivtuber.Task.Execution.{record_observation, finish_step, retry_current_step, replan, cancel}
use aivtuber.Task.Calls.{Call, call}
use aivtuber.Plane.Data
use aivtuber.Plane.Data.{TaskPlane, TaskPlaneConfig, TaskPlaneError, new_plane, find_task}
use aivtuber.Plane.Operations.{sorted_keys, expire, not_active, commit_verification}
use aivtuber.Plane.Invariant.{PlaneValid}
use aivtuber.Plane.Calls.{PlaneCall, plane_call, plane_calls, target, failing}
use aivtuber.Plane.Acts.{is_refused, on_active-none, on_active_quietly-none}
use aivtuber.Plane.Refines.{plane_operations, plane_call-Acts}
use aivtuber.Plane.Entry.{new_plane-PlaneValid, create_task-PlaneValid}
use aivtuber.Plane.Expiry.{expire_ids-PlaneValid}

module _ {R : Type 0} where
  commit_verification-none :
      (p : TaskPlane R) (id : String) (g : ℕ) (v : VerificationResult) (now : ℕ)
      → lookup id p.active ≡ none
      → commit_verification p id g v now ≡ (p, Data.err (not_active p id))
  unfolding commit_verification
  commit_verification-none p id g v now e = rw (e, commit_verification)

  -- The identifier that a call is about.
  missed :
      (p : TaskPlane R) (id i : String) (m k : Call R) (r : TaskPlane R × Option TaskPlaneError)
      → ◌≡◌ {A = Option (String × Call R)} (some (i, m)) (some (id, k))
      → lookup id p.active ≡ none
      → (lookup i p.active ≡ none → r ≡ (p, some (not_active p i)))
      → r ≡ (p, some (not_active p id))
  missed p id i m k r e absent f =
      let same = some-injective (i, m) (id, k) e in
      subst (λ (x : String × Call R). r ≡ (p, some (not_active p x.0))) same
        (f (subst (λ (x : String × Call R). lookup x.0 p.active ≡ none) (sym same) absent))

  pub plane_call-none :
      (p : TaskPlane R) (c : PlaneCall R) (id : String) (k : Call R)
      → target c ≡ some (id, k)
      → lookup id p.active ≡ none
      → plane_call p c ≡ (p, some (not_active p id))
  unfolding plane_operations
  plane_call-none p (PlaneCall.begin_planning i now) id k e absent =
      missed p id i (Call.begin_planning now) k (plane_call p (PlaneCall.begin_planning i now)) e
        absent (λ at. ap failing (on_active-none p i (λ u. begin_planning u now) at))
  plane_call-none p (PlaneCall.mark_ready i now) id k e absent =
      missed p id i (Call.mark_ready now) k (plane_call p (PlaneCall.mark_ready i now)) e absent
        (λ at. ap failing (on_active-none p i (λ u. mark_ready u now) at))
  plane_call-none p (PlaneCall.wait_for i c text ttl now) id k e absent =
      missed p id i (Call.wait_for c text ttl now) k
        (plane_call p (PlaneCall.wait_for i c text ttl now)) e absent
        (λ at. ap failing (on_active-none p i (λ u. wait_for u c text ttl now) at))
  plane_call-none p (PlaneCall.resume i now) id k e absent =
      missed p id i (Call.resume now) k (plane_call p (PlaneCall.resume i now)) e absent
        (λ at. ap failing (on_active-none p i (λ u. resume u now) at))
  plane_call-none p (PlaneCall.begin_execution i j now) id k e absent =
      missed p id i (Call.begin_execution j now) k
        (plane_call p (PlaneCall.begin_execution i j now)) e absent
        (λ at. ap failing (on_active-none p i (λ u. begin_execution u j now) at))
  plane_call-none p (PlaneCall.finish_step i now) id k e absent =
      missed p id i (Call.finish_step now) k (plane_call p (PlaneCall.finish_step i now)) e absent
        (λ at. ap failing (on_active-none p i (λ u. finish_step u now) at))
  plane_call-none p (PlaneCall.retry_current_step i now) id k e absent =
      missed p id i (Call.retry_current_step now) k
        (plane_call p (PlaneCall.retry_current_step i now)) e absent
        (λ at. ap failing (on_active-none p i (λ u. retry_current_step u now) at))
  plane_call-none p (PlaneCall.replan i now) id k e absent =
      missed p id i (Call.replan now) k (plane_call p (PlaneCall.replan i now)) e absent
        (λ at. ap failing (on_active-none p i (λ u. replan u now) at))
  plane_call-none p (PlaneCall.cancel i text now) id k e absent =
      missed p id i (Call.cancel text now) k (plane_call p (PlaneCall.cancel i text now)) e absent
        (λ at. ap failing (on_active-none p i (λ u. cancel u text now) at))
  plane_call-none p (PlaneCall.add_step i text) id k e absent =
      missed p id i (Call.add_step text) k (plane_call p (PlaneCall.add_step i text)) e absent
        (λ at. ap failing (on_active_quietly-none p i (λ u. add_step u text) at))
  plane_call-none p (PlaneCall.record_tool_evidence i g d) id k e absent =
      missed p id i (Call.record_observation g d.result d.verification) k
        (plane_call p (PlaneCall.record_tool_evidence i g d)) e absent
        (λ at.
          ap failing
            (on_active_quietly-none p i (λ u. record_observation u g d.result d.verification) at))
  plane_call-none p (PlaneCall.commit_verification i g v now) id k e absent =
      missed p id i (Call.verify g v now) k (plane_call p (PlaneCall.commit_verification i g v now))
        e absent (λ at. ap failing (commit_verification-none p i g v now at))
  plane_call-none p (PlaneCall.create_task i text at_ms l) id k e absent = absurd (cc e)
  plane_call-none p (PlaneCall.expire now) id k e absent = absurd (cc e)

  -- A call on one task.
  targeted-PlaneValid :
      (p : TaskPlane R) (h : PlaneValid p) (c : PlaneCall R) (id : String) (k : Call R)
      → ◌≡◌ {A = Option (String × Call R)} (target c) (some (id, k))
      → PlaneValid (plane_call p c).0
  targeted-PlaneValid p h c id k e = elim (Option-cases (lookup id p.active)) [
    | inl absent ↦ rw (plane_call-none p c id k e absent) h
    | inr (t, at) ↦ (plane_call-Acts p h id t at c k e).valid
  ]

  pub plane_call-PlaneValid :
      (p : TaskPlane R) (c : PlaneCall R) → PlaneValid p → PlaneValid (plane_call p c).0
  unfolding plane_call expire
  plane_call-PlaneValid p (PlaneCall.create_task id text at_ms l) h =
      create_task-PlaneValid p h id text at_ms l
  plane_call-PlaneValid p (PlaneCall.expire now) h =
      expire_ids-PlaneValid p h (sorted_keys p.active) now 0
  plane_call-PlaneValid p (PlaneCall.begin_planning i now) h =
      targeted-PlaneValid p h (PlaneCall.begin_planning i now) i (Call.begin_planning now) refl
  plane_call-PlaneValid p (PlaneCall.add_step i text) h =
      targeted-PlaneValid p h (PlaneCall.add_step i text) i (Call.add_step text) refl
  plane_call-PlaneValid p (PlaneCall.mark_ready i now) h =
      targeted-PlaneValid p h (PlaneCall.mark_ready i now) i (Call.mark_ready now) refl
  plane_call-PlaneValid p (PlaneCall.wait_for i c text ttl now) h =
      targeted-PlaneValid p h (PlaneCall.wait_for i c text ttl now) i (Call.wait_for c text ttl now)
        refl
  plane_call-PlaneValid p (PlaneCall.resume i now) h =
      targeted-PlaneValid p h (PlaneCall.resume i now) i (Call.resume now) refl
  plane_call-PlaneValid p (PlaneCall.begin_execution i j now) h =
      targeted-PlaneValid p h (PlaneCall.begin_execution i j now) i (Call.begin_execution j now)
        refl
  plane_call-PlaneValid p (PlaneCall.record_tool_evidence i g d) h =
      targeted-PlaneValid p h (PlaneCall.record_tool_evidence i g d) i
        (Call.record_observation g d.result d.verification) refl
  plane_call-PlaneValid p (PlaneCall.finish_step i now) h =
      targeted-PlaneValid p h (PlaneCall.finish_step i now) i (Call.finish_step now) refl
  plane_call-PlaneValid p (PlaneCall.retry_current_step i now) h =
      targeted-PlaneValid p h (PlaneCall.retry_current_step i now) i (Call.retry_current_step now)
        refl
  plane_call-PlaneValid p (PlaneCall.replan i now) h =
      targeted-PlaneValid p h (PlaneCall.replan i now) i (Call.replan now) refl
  plane_call-PlaneValid p (PlaneCall.cancel i text now) h =
      targeted-PlaneValid p h (PlaneCall.cancel i text now) i (Call.cancel text now) refl
  plane_call-PlaneValid p (PlaneCall.commit_verification i g v now) h =
      targeted-PlaneValid p h (PlaneCall.commit_verification i g v now) i (Call.verify g v now) refl

  plane_calls-PlaneValid :
      (p : TaskPlane R) (cs : List (PlaneCall R)) → PlaneValid p → PlaneValid (plane_calls p cs)
  unfolding plane_calls
  plane_calls-PlaneValid p [] h = h
  plane_calls-PlaneValid p (c ∷ cs) h =
      plane_calls-PlaneValid (plane_call p c).0 cs (plane_call-PlaneValid p c h)

  -- After any sequence of calls on a new plane, failed ones included: every active task is filed by
  -- its identifier, satisfies the invariant of a task and has not ended; every retained task
  -- satisfies it and has ended; no task is both; and the numbers of active tasks, of retained tasks
  -- and of transition records are within the configured limits.
  pub new_plane_calls-PlaneValid :
      (config : TaskPlaneConfig) (cs : List (PlaneCall R)) {p : TaskPlane R}
      → new_plane config ≡ Data.ok p
      → PlaneValid (plane_calls p cs)
  new_plane_calls-PlaneValid config cs {p} e =
      plane_calls-PlaneValid p cs (new_plane-PlaneValid config e)

  -- On a plane that satisfies the invariant, a call about an active task does what the task's own
  -- operation does: afterwards the plane shows the task that this operation makes, whether it stays
  -- active or has ended, every other active task is as it was, and the call fails exactly when the
  -- operation fails.
  pub plane_call-call :
      (p : TaskPlane R) (c : PlaneCall R) (id : String) (k : Call R) (t : AgentTask R)
      → PlaneValid p
      → target c ≡ some (id, k)
      → lookup id p.active ≡ some t
      → (find_task (plane_call p c).0 id ≡ some (call t k).0)
        × ((j : String) → id ≢ j → lookup j (plane_call p c).0.active ≡ lookup j p.active)
        × (is_refused (plane_call p c).1 ≡ is_refused (call t k).1)
  plane_call-call p c id k t h e at =
      let acts = plane_call-Acts p h id t at c k e in
      (acts.updates.sees, acts.updates.others, acts.alike)
