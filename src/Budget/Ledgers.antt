-- ===== src/Budget/Ledgers.antt =====
-- crates/app/src/budget.rs: the two ledgers of calls, behind one interface.
use aivtuber.Common.{ℕ, ◌-◌, ◌<◌, ◌≡◌, refl, Option, none, some, List, [], length, arith}
use aivtuber.Budget.Data.{
  GenerativeBudgetPolicy, BudgetAdmission, BudgetDenialReason, BudgetReservation,
  GenerativeBudgetGovernor, new_governor,
}
use aivtuber.Budget.Governor
use aivtuber.Budget.Governor.{
  AdmitResult, admitted, denied, return_slot, exhausted, effective_limit, grant, deny, push_call,
  trim_windows, trim_ledger, is_accounted, try_admit,
}

-- A ledger of calls with its limit: what the governor's operations do to it.
pub record CallLedger : Type 0 where
  pub limit_of : GenerativeBudgetPolicy → Option ℕ
  pub ledger_of : GenerativeBudgetGovernor → List ℕ
  pub starts_empty : (p : GenerativeBudgetPolicy) → ledger_of (new_governor p) ≡ []
  pub trims :
      (g : GenerativeBudgetGovernor) (now : ℕ)
      → ledger_of (trim_windows g now) ≡ trim_ledger (now - g.policy.interval_ms) (ledger_of g)
  pub grants :
      (g : GenerativeBudgetGovernor) (a : BudgetAdmission) (now : ℕ)
      → ledger_of (grant g a now).0 ≡ push_call (limit_of g.policy) (ledger_of g) now
  pub denies :
      (g : GenerativeBudgetGovernor) (reason : BudgetDenialReason)
      → ledger_of (deny g reason) ≡ ledger_of g
  pub settles :
      (r : BudgetReservation) (g : GenerativeBudgetGovernor) (chars cost : ℕ)
      → ledger_of (Governor.settle r g chars cost).1 ≡ ledger_of g
  pub releases :
      (r : BudgetReservation) (g : GenerativeBudgetGovernor)
      → ledger_of (Governor.release r g).1 ≡ ledger_of g
  pub drops :
      (r : BudgetReservation) (g : GenerativeBudgetGovernor)
      → ledger_of (Governor.drop_reservation r g) ≡ ledger_of g
  pub notes : (g : GenerativeBudgetGovernor) → ledger_of (Governor.note_degraded g) ≡ ledger_of g
  pub has_room :
      (g : GenerativeBudgetGovernor) (a : BudgetAdmission) (limit : ℕ)
      → limit_of g.policy ≡ some limit
      → exhausted g a ≡ none
      → length (ledger_of g) < effective_limit g.policy a limit

-- No operation changes the policy.
pub settle-policy :
    (r : BudgetReservation) (g : GenerativeBudgetGovernor) (chars cost : ℕ)
    → (Governor.settle r g chars cost).1.policy ≡ g.policy
unfolding Governor.settle Governor.settle_units
settle-policy r g chars cost = ground arith

pub release-policy :
    (r : BudgetReservation) (g : GenerativeBudgetGovernor)
    → (Governor.release r g).1.policy ≡ g.policy
unfolding Governor.release Governor.release_slot
release-policy r g = ground arith

pub drop-policy :
    (r : BudgetReservation) (g : GenerativeBudgetGovernor)
    → (Governor.drop_reservation r g).policy ≡ g.policy
unfolding Governor.drop_reservation
drop-policy r g = ground arith

unfoldable pub ledgers : Unit {0}
unfolding Governor.settle Governor.settle_units Governor.release Governor.release_slot
    Governor.drop_reservation Governor.note_degraded trim_windows grant deny
ledgers = tt

unfoldable pub llm_ledger : CallLedger
unfolding ledgers exhausted
llm_ledger = record {
  limit_of = λ p. p.max_llm_calls_per_interval;
  ledger_of = λ g. g.llm_calls;
  starts_empty = λ p. refl;
  trims = λ g now. refl;
  grants = λ g a now. refl;
  denies = λ g reason. refl;
  settles = λ r g chars cost. ground arith;
  releases = λ r g. ground arith;
  drops = λ r g. ground arith;
  notes = λ g. refl;
  has_room = λ g a limit e fits. ground arith;
}

unfoldable pub tts_ledger : CallLedger
unfolding ledgers exhausted
tts_ledger = record {
  limit_of = λ p. p.max_tts_calls_per_interval;
  ledger_of = λ g. g.tts_calls;
  starts_empty = λ p. refl;
  trims = λ g now. refl;
  grants = λ g a now. refl;
  denies = λ g reason. refl;
  settles = λ r g chars cost. ground arith;
  releases = λ r g. ground arith;
  drops = λ r g. ground arith;
  notes = λ g. refl;
  has_room = λ g a limit e fits. ground arith;
}
