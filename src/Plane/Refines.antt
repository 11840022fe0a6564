-- ===== src/Plane/Refines.antt =====
-- crates/app/src/task_plane.rs: the plane against the tasks' own operations.
use aivtuber.Common.{
  ℕ, ◌≡◌, refl, sym, inl, inr, subst, String, false, Option, some, Bool-cases, eqb, string_eq,
  arith,
}
use mathlib.Core.Option.{some-injective}
use aivtuber.Common.Map.{lookup}
use aivtuber.Task.Data.{AgentTask, VerificationResult, TaskError, err}
use aivtuber.Task.Calls.{Call, call}
use aivtuber.Task.Operations.{
  begin_planning, add_step, mark_ready, wait_for, resume, begin_execution,
}
use aivtuber.Task.Execution.{
  record_observation, finish_step, retry_current_step, replan, verify, cancel,
}
use aivtuber.Task.Invariant
use aivtuber.Task.Invariant.{IsValid}
use aivtuber.Plane.Data.{TaskPlane, TaskPlaneError, stale_commit}
use aivtuber.Plane.Operations
use aivtuber.Plane.Operations.{commit_verification, on_active, not_active}
use aivtuber.Plane.Reports
use aivtuber.Plane.Invariant.{PlaneValid}
use aivtuber.Plane.Steps.{Result-cases}
use aivtuber.Plane.Calls.{PlaneCall, plane_call, target, failing}
use aivtuber.Plane.Acts.{Acts, on_active-Acts, on_active_quietly-Acts, refused-Acts}

-- Names the operations of the plane that are about one task.
unfoldable pub plane_operations : Unit {0}
unfolding call plane_call Operations.begin_planning Operations.add_step Operations.mark_ready
    Operations.wait_for Operations.resume Operations.begin_execution Operations.record_tool_evidence
    Operations.finish_step Operations.retry_current_step Operations.replan Operations.cancel
plane_operations = tt

module _ {R : Type 0} (p : TaskPlane R) (h : PlaneValid p) (id : String) (t : AgentTask R)
    (at : lookup id p.active ≡ some t) where
  is_valid : IsValid t
  is_valid = (h.known id t at).valid

  -- A verdict for another generation than the task's is refused by the task too.
  stale_verify :
      (g : ℕ) (v : VerificationResult) (now : ℕ)
      → eqb t.generation g ≡ false
      → (e : TaskError) × (verify t g v now ≡ (t, err e))
  unfolding verify
  stale_verify g v now other =
      let valid = is_valid in
      elim (Result-cases (verify t g v now).1) [
        | inl (e, q) ↦ (e, ground (arith, valid))
        | inr (x, q) ↦ absurd (ground (arith, valid))
      ]

  commit_verification-Acts :
      (g : ℕ) (v : VerificationResult) (now : ℕ)
      → Acts p id (call t (Call.verify g v now)) (failing (commit_verification p id g v now))
  unfolding commit_verification call
  commit_verification-Acts g v now = elim (Bool-cases (eqb t.generation g)) [
    | inl same ↦
        rw (at, same, commit_verification)
          (on_active-Acts p id h t at (λ u. verify u g v now)
            (Reports.verify-Fits t is_valid g v now))
    | inr other ↦
        let (e, refused) = stale_verify g v now other in
        rw (at, other, refused, commit_verification)
          (refused-Acts p id h t at (stale_commit g t.generation) e refl)
  ]

module _ {R : Type 0} (p : TaskPlane R) (h : PlaneValid p) (id : String) (t : AgentTask R)
    (at : lookup id p.active ≡ some t) where
  -- The identifier and the call of an operation that is about `id`.
  aimed :
      (i : String) (m : Call R) (k : Call R) (r : TaskPlane R × Option TaskPlaneError)
      → ◌≡◌ {A = Option (String × Call R)} (some (i, m)) (some (id, k))
      → (lookup i p.active ≡ some t → Acts p i (call t m) r)
      → Acts p id (call t k) r
  aimed i m k r e f =
      let same : ◌≡◌ {A = String × Call R} (i, m) (id, k) = some-injective (i, m) (id, k) e in
      subst (λ x. Acts p x.0 (call t x.1) r) same
        (f (subst (λ x. lookup x.0 p.active ≡ some t) (sym same) at))

  pub plane_call-Acts :
      (c : PlaneCall R) (k : Call R)
      → target c ≡ some (id, k)
      → Acts p id (call t k) (plane_call p c)
  unfolding plane_operations
  plane_call-Acts (PlaneCall.begin_planning i now) k e =
      aimed i (Call.begin_planning now) k (plane_call p (PlaneCall.begin_planning i now)) e (λ on.
        on_active-Acts p i h t on (λ u. begin_planning u now)
          (Reports.begin_planning-Fits t (is_valid p h id t at) now))
  plane_call-Acts (PlaneCall.mark_ready i now) k e =
      aimed i (Call.mark_ready now) k (plane_call p (PlaneCall.mark_ready i now)) e (λ on.
        on_active-Acts p i h t on (λ u. mark_ready u now)
          (Reports.mark_ready-Fits t (is_valid p h id t at) now))
  plane_call-Acts (PlaneCall.wait_for i c text ttl now) k e =
      aimed i (Call.wait_for c text ttl now) k (plane_call p (PlaneCall.wait_for i c text ttl now))
        e
        (λ on.
          on_active-Acts p i h t on (λ u. wait_for u c text ttl now)
            (Reports.wait_for-Fits t (is_valid p h id t at) c text ttl now))
  plane_call-Acts (PlaneCall.resume i now) k e =
      aimed i (Call.resume now) k (plane_call p (PlaneCall.resume i now)) e (λ on.
        on_active-Acts p i h t on (λ u. resume u now)
          (Reports.resume-Fits t (is_valid p h id t at) now))
  plane_call-Acts (PlaneCall.begin_execution i j now) k e =
      aimed i (Call.begin_execution j now) k (plane_call p (PlaneCall.begin_execution i j now)) e
        (λ on.
          on_active-Acts p i h t on (λ u. begin_execution u j now)
            (Reports.begin_execution-Fits t (is_valid p h id t at) j now))
  plane_call-Acts (PlaneCall.finish_step i now) k e =
      aimed i (Call.finish_step now) k (plane_call p (PlaneCall.finish_step i now)) e (λ on.
        on_active-Acts p i h t on (λ u. finish_step u now)
          (Reports.finish_step-Fits t (is_valid p h id t at) now))
  plane_call-Acts (PlaneCall.retry_current_step i now) k e =
      aimed i (Call.retry_current_step now) k (plane_call p (PlaneCall.retry_current_step i now)) e
        (λ on.
          on_active-Acts p i h t on (λ u. retry_current_step u now)
            (Reports.retry_current_step-Fits t (is_valid p h id t at) now))
  plane_call-Acts (PlaneCall.replan i now) k e =
      aimed i (Call.replan now) k (plane_call p (PlaneCall.replan i now)) e (λ on.
        on_active-Acts p i h t on (λ u. replan u now)
          (Reports.replan-Fits t (is_valid p h id t at) now))
  plane_call-Acts (PlaneCall.cancel i text now) k e =
      aimed i (Call.cancel text now) k (plane_call p (PlaneCall.cancel i text now)) e (λ on.
        on_active-Acts p i h t on (λ u. cancel u text now)
          (Reports.cancel-Fits t (is_valid p h id t at) text now))
  plane_call-Acts (PlaneCall.add_step i text) k e =
      aimed i (Call.add_step text) k (plane_call p (PlaneCall.add_step i text)) e (λ on.
        on_active_quietly-Acts p i h t on (λ u. add_step u text)
          (Invariant.add_step-IsValid t (is_valid p h id t at) text)
          (Reports.add_step-Stays t text))
  plane_call-Acts (PlaneCall.record_tool_evidence i g d) k e =
      aimed i (Call.record_observation g d.result d.verification) k
        (plane_call p (PlaneCall.record_tool_evidence i g d)) e
        (λ on.
          on_active_quietly-Acts p i h t on (λ u. record_observation u g d.result d.verification)
            (Invariant.record_observation-IsValid t (is_valid p h id t at) g d.result
              d.verification)
            (Reports.record_observation-Stays t g d.result d.verification))
  plane_call-Acts (PlaneCall.commit_verification i g v now) k e =
      aimed i (Call.verify g v now) k (plane_call p (PlaneCall.commit_verification i g v now)) e
        (λ on. commit_verification-Acts p h i t on g v now)
  plane_call-Acts (PlaneCall.create_task i text at_ms l) k e = cc e
  plane_call-Acts (PlaneCall.expire now) k e = cc e
