-- ===== src/Budget/Admission.antt =====
-- crates/app/src/budget.rs: the three ways in which a request ends.
use aivtuber.Common.{ℕ, ◌≡◌, inl, inr, true, false, none, some, Bool-cases, Option-cases}
use aivtuber.Budget.Data.{BudgetAdmission, BudgetDenialReason, GenerativeBudgetGovernor}
use aivtuber.Budget.Governor.{
  admitted, denied, try_admit, admit_counted, exhausted, deny, grant, trim_windows, is_accounted,
  uncharged_reservation,
}

pub data Outcome (g : GenerativeBudgetGovernor) (a : BudgetAdmission) (now : ℕ) : Type 0 where
  free :
      is_accounted g.policy a ≡ false
      → try_admit g a now ≡ (g, admitted (uncharged_reservation now))
      → Outcome g a now
  refused :
      (reason : BudgetDenialReason)
      → exhausted (trim_windows g now) a ≡ some reason
      → try_admit g a now ≡ (deny (trim_windows g now) reason, denied reason)
      → Outcome g a now
  counted :
      is_accounted g.policy a ≡ true
      → exhausted (trim_windows g now) a ≡ none
      → try_admit g a now
        ≡ ((grant (trim_windows g now) a now).0, admitted (grant (trim_windows g now) a now).1)
      → Outcome g a now

pub outcome : (g : GenerativeBudgetGovernor) (a : BudgetAdmission) (now : ℕ) → Outcome g a now
unfolding try_admit admit_counted
outcome g a now = elim (Bool-cases (is_accounted g.policy a)) [
  | inr e ↦ free e (rw (e, try_admit))
  | inl e ↦ elim (Option-cases (exhausted (trim_windows g now) a)) [
    | inl fits ↦ counted e fits (rw (e, try_admit, fits, admit_counted))
    | inr (reason, over) ↦ refused reason over (rw (e, try_admit, over, admit_counted))
  ]
]
