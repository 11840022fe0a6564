-- ===== src/Budget/Calls.antt =====
-- crates/app/src/budget.rs: the governor with the reservations that it has granted, and the calls on
-- both.
use aivtuber.Common.{ℕ, none, some, List, [], ◌∷◌, ◌++◌, get_elem?, set, swap_remove}
use aivtuber.Budget.Data.{
  GenerativeBudgetPolicy, BudgetAdmission, BudgetReservation, GenerativeBudgetGovernor,
  new_governor,
}
use aivtuber.Budget.Governor
use aivtuber.Budget.Governor.{AdmitResult, admitted, denied}

-- The reservations that have been granted and not dropped, in no order.
pub record BudgetSession : Type 0 where
  pub governor : GenerativeBudgetGovernor
  pub reservations : List BudgetReservation

abbrev pub new_session : GenerativeBudgetPolicy → BudgetSession
new_session p = record { governor = new_governor p; reservations = [] }

pub data BudgetCall : Type 0 where
  try_admit : BudgetAdmission → ℕ → BudgetCall
  settle : ℕ → ℕ → ℕ → BudgetCall
  release : ℕ → BudgetCall
  drop : ℕ → BudgetCall
  note_degraded : BudgetCall
  tick : ℕ → BudgetCall

-- A granted reservation belongs to the caller.
abbrev pub keep : List BudgetReservation → AdmitResult → List BudgetReservation
keep rs (admitted r) = rs ++ r ∷ []
keep rs (denied reason) = rs

-- The session after a call. A call on a reservation that is not there changes nothing.
unfoldable pub budget_call : BudgetSession → BudgetCall → BudgetSession
unfolding Governor.try_admit Governor.settle Governor.release Governor.drop_reservation
    Governor.note_degraded Governor.tick swap_remove
budget_call s (BudgetCall.try_admit a now) =
    let (g, r) = Governor.try_admit s.governor a now in
    record { governor = g; reservations = keep s.reservations r }
budget_call s (BudgetCall.settle i chars cost) = elim (get_elem? s.reservations i) [
  | none ↦ s
  | some r ↦
      let (q, g) = Governor.settle r s.governor chars cost in
      record { governor = g; reservations = set s.reservations i q }
]
budget_call s (BudgetCall.release i) = elim (get_elem? s.reservations i) [
  | none ↦ s
  | some r ↦
      let (q, g) = Governor.release r s.governor in
      record { governor = g; reservations = set s.reservations i q }
]
budget_call s (BudgetCall.drop i) = elim (get_elem? s.reservations i) [
  | none ↦ s
  | some r ↦ record {
    governor = Governor.drop_reservation r s.governor;
    reservations = swap_remove s.reservations i;
  }
]
budget_call s BudgetCall.note_degraded = record s { governor = Governor.note_degraded s.governor }
budget_call s (BudgetCall.tick now) = record s { governor = Governor.tick s.governor now }

unfoldable pub budget_calls : BudgetSession → List BudgetCall → BudgetSession
unfolding budget_call
budget_calls s [] = s
budget_calls s (c ∷ cs) = budget_calls (budget_call s c) cs
