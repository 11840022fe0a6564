-- ===== src/Budget/Examples.antt =====
-- crates/app/src/budget.rs: a small policy, runs of its governor, and the theorems of the budgets
-- there.
use aivtuber.Common.{
  ◌≡◌, ◌≢◌, ◌-◌, ◌≤◌, refl, true, some, List, [], ◌∷◌, length, swap_remove, arith,
}
use aivtuber.Common.Word.{saturating_add}
use aivtuber.Budget.Data
use aivtuber.Budget.Data.{
  GenerativeBudgetPolicy, BudgetAdmission, BudgetPriorityClass, BudgetDenialReason, default_policy,
  reserve_share, ordinary_share, fetch_add, fetch_sub, new_governor,
}
use aivtuber.Budget.Governor
use aivtuber.Budget.Governor.{
  denied, try_admit, trim_windows, trim_ledger, sum, exhausted, effective_limit,
}
use aivtuber.Budget.Calls.{BudgetSession, BudgetCall, budget_call, budget_calls, new_session}
use aivtuber.Budget.Concurrent.{IsCounted, in_flight-IsCounted}
use aivtuber.Budget.Recent.{recent}
use aivtuber.Budget.Window.{charged_calls, llm_calls_in_window}
use aivtuber.Budget.Amounts.{tts_chars_forgotten, llm_units_unenforced}

-- Everything that a call of the governor computes with.
budget_program : Unit {0}
unfolding budget_call budget_calls charged_calls try_admit Governor.admit_counted trim_windows
    trim_ledger sum exhausted Governor.deny Governor.count_denial Governor.grant Governor.settle
    Governor.settle_units Governor.release Governor.release_slot Governor.drop_reservation
    Governor.note_degraded Governor.tick reserve_share ordinary_share fetch_add fetch_sub
    swap_remove saturating_add
budget_program = tt

abbrev strict : GenerativeBudgetPolicy
strict = record default_policy {
  enabled = true;
  max_concurrent_generations = some 2;
  max_llm_calls_per_interval = some 3;
  max_llm_units_per_interval = some 10;
  max_tts_chars_per_interval = some 50;
  interval_ms = 1000;
}

abbrev request : BudgetAdmission
request = record {
  priority = BudgetPriorityClass.ordinary;
  estimated_tts_chars = 40;
  estimated_cost_milliunits = 0;
}

-- The third request is denied, the last one finds the first two expired.
abbrev day : List BudgetCall
day =
    BudgetCall.try_admit (record request { estimated_tts_chars = 20 }) 100
    ∷ BudgetCall.try_admit (record request { estimated_tts_chars = 20 }) 200
    ∷ BudgetCall.try_admit request 300
    ∷ BudgetCall.settle 0 30 0
    ∷ BudgetCall.release 1
    ∷ BudgetCall.drop 1
    ∷ BudgetCall.tick 1000
    ∷ BudgetCall.try_admit (record request { estimated_tts_chars = 0 }) 1500
    ∷ []

day_charges : charged_calls (new_session strict) day ≡ 100 ∷ 200 ∷ 1500 ∷ []
unfolding budget_program
day_charges = refl

in_flight-IsCounted_example : IsCounted strict 2 (budget_calls (new_session strict) day)
in_flight-IsCounted_example = in_flight-IsCounted strict 2 refl (omega arith) day

llm_calls_in_window_example :
    ((trim_windows (budget_calls (new_session strict) day).governor 1500).llm_calls
      ≡ recent (1500 - 1000) (charged_calls (new_session strict) day))
    × (length (recent (1500 - 1000) (charged_calls (new_session strict) day)) ≤ 3)
llm_calls_in_window_example =
    llm_calls_in_window strict 3 day 1500 refl
      (omega arith, (omega arith, (omega arith, (omega arith, (omega arith, tt))))) (omega arith)

-- Forty characters, charged at 5000.
abbrev charged_once : BudgetSession
charged_once = budget_calls (new_session strict) (BudgetCall.try_admit request 5000 ∷ [])

charged_ledger : charged_once.governor.tts_chars ≡ 40 ∷ []
unfolding budget_program
charged_ledger = refl

-- Forty more are within the part of the limit, and are granted a millisecond later.
abbrev forgetful : Data.GenerativeBudgetGovernor
forgetful = record (new_governor strict) {
  tts_chars = 40 ∷ [];
  llm_calls = 5000 ∷ [];
  in_flight = 1;
}

request_fits : request.estimated_tts_chars ≤ effective_limit strict request 50
unfolding budget_program
request_fits = omega arith

tts_chars_forgotten_example :
    (try_admit forgetful request 5001).1 ≢ denied BudgetDenialReason.tts_char_budget_exhausted
tts_chars_forgotten_example =
    tts_chars_forgotten forgetful request 5001 50 refl (omega arith, tt) request_fits

llm_units_unenforced_example :
    (try_admit (budget_calls (new_session strict) day).governor request 1600).1
    ≢ denied BudgetDenialReason.llm_unit_budget_exhausted
llm_units_unenforced_example = llm_units_unenforced strict 10 day request 1600 refl (omega arith)
