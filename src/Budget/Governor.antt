-- ===== src/Budget/Governor.antt =====
-- crates/app/src/budget.rs: the operations of the governor and of its reservations.
use Prim.Native.Nat.{◌%◌}
use aivtuber.Common.{
  ℕ, ◌+◌, ◌-◌, ◌^◌, max, Bool, true, false, ◌&&◌, not, Option, none, some, List, [], ◌∷◌, ◌++◌, ltb,
  leb, length, if◌then◌else◌,
}
use aivtuber.Common.Word.{saturating_add}
use aivtuber.Budget.Data.{
  GenerativeBudgetPolicy, BudgetPriorityClass, BudgetDenialReason, BudgetAdmission,
  BudgetReservation, GenerativeBudgetGovernor, ordinary_share, is_some, fetch_add, fetch_sub,
}

-- `iter().sum()` on `u64`, as the release build computes it.
unfoldable pub sum : List ℕ → ℕ
sum [] = 0
sum (x ∷ xs) = (x + sum xs) % 2 ^ 64

-- `while ledger.front().is_some_and(|at| *at < horizon)`
unfoldable pub trim_ledger : ℕ → List ℕ → List ℕ
trim_ledger horizon [] = []
trim_ledger horizon (at ∷ rest) =
    let kept = trim_ledger horizon rest in if ltb at horizon then kept else at ∷ rest

-- `trim_windows`
unfoldable pub trim_windows : GenerativeBudgetGovernor → ℕ → GenerativeBudgetGovernor
unfolding trim_ledger
trim_windows g now =
    let horizon = now - g.policy.interval_ms in
    record g {
      llm_calls = trim_ledger horizon g.llm_calls;
      tts_calls = trim_ledger horizon g.tts_calls;
      llm_units = trim_ledger horizon g.llm_units;
      tts_chars = trim_ledger horizon g.tts_chars;
      cost_milliunits = trim_ledger horizon g.cost_milliunits;
    }

abbrev pub same_reason : BudgetDenialReason → BudgetDenialReason → Bool
same_reason BudgetDenialReason.concurrent_budget_exhausted
      BudgetDenialReason.concurrent_budget_exhausted =
    true
same_reason BudgetDenialReason.llm_call_budget_exhausted
      BudgetDenialReason.llm_call_budget_exhausted =
    true
same_reason BudgetDenialReason.tts_call_budget_exhausted
      BudgetDenialReason.tts_call_budget_exhausted =
    true
same_reason BudgetDenialReason.llm_unit_budget_exhausted
      BudgetDenialReason.llm_unit_budget_exhausted =
    true
same_reason BudgetDenialReason.tts_char_budget_exhausted
      BudgetDenialReason.tts_char_budget_exhausted =
    true
same_reason BudgetDenialReason.cost_budget_exhausted BudgetDenialReason.cost_budget_exhausted = true
same_reason _ _ = false

-- The counter of a reason, which its first denial adds.
unfoldable pub count_denial :
    BudgetDenialReason → List (BudgetDenialReason × ℕ) → List (BudgetDenialReason × ℕ)
count_denial reason [] = (reason, 1) ∷ []
count_denial reason ((known, count) ∷ rest) =
    let later = count_denial reason rest in
    if same_reason known reason
    then (known, saturating_add count 1) ∷ rest
    else (known, count) ∷ later

-- `deny`
unfoldable pub deny : GenerativeBudgetGovernor → BudgetDenialReason → GenerativeBudgetGovernor
unfolding count_denial saturating_add
deny g reason = record g {
  denied_total = saturating_add g.denied_total 1;
  denials_by_reason = count_denial reason g.denials_by_reason;
}

abbrev pub is_high : BudgetPriorityClass → Bool
is_high BudgetPriorityClass.high = true
is_high _ = false

abbrev pub is_shadow : BudgetPriorityClass → Bool
is_shadow BudgetPriorityClass.shadow = true
is_shadow _ = false

-- The part of a limit that a request may use.
abbrev pub effective_limit : GenerativeBudgetPolicy → BudgetAdmission → ℕ → ℕ
effective_limit p a limit = if is_high a.priority then limit else ordinary_share p limit

-- Whether a limit is set and `consumed` has reached it, or passed it.
abbrev pub is_reached : ℕ → Option ℕ → Bool
is_reached consumed none = false
is_reached consumed (some limit) = leb limit consumed

abbrev pub is_passed : ℕ → Option ℕ → Bool
is_passed consumed none = false
is_passed consumed (some limit) = ltb limit consumed

abbrev pub share : GenerativeBudgetPolicy → BudgetAdmission → Option ℕ → Option ℕ
share p a none = none
share p a (some limit) = some (effective_limit p a limit)

-- The first of the budgets that a request would exceed, in the order of `try_admit`.
unfoldable pub exhausted : GenerativeBudgetGovernor → BudgetAdmission → Option BudgetDenialReason
unfolding sum saturating_add ordinary_share
exhausted g a =
    let p = g.policy in
    if is_reached g.in_flight p.max_concurrent_generations
    then some BudgetDenialReason.concurrent_budget_exhausted
    else if is_reached (length g.llm_calls) (share p a p.max_llm_calls_per_interval)
    then some BudgetDenialReason.llm_call_budget_exhausted
    else if is_reached (length g.tts_calls) (share p a p.max_tts_calls_per_interval)
    then some BudgetDenialReason.tts_call_budget_exhausted
    else if is_reached (sum g.llm_units) p.max_llm_units_per_interval
    then some BudgetDenialReason.llm_unit_budget_exhausted
    else if is_passed (saturating_add (sum g.tts_chars) a.estimated_tts_chars)
        (share p a p.max_tts_chars_per_interval)
    then some BudgetDenialReason.tts_char_budget_exhausted
    else if is_passed (saturating_add (sum g.cost_milliunits) a.estimated_cost_milliunits)
        p.max_estimated_cost_milliunits_per_interval
    then some BudgetDenialReason.cost_budget_exhausted
    else none

-- `push_back` of a timestamp, if the budget is enforced.
abbrev pub push_call : Option ℕ → List ℕ → ℕ → List ℕ
push_call limit ledger at = if is_some limit then ledger ++ at ∷ [] else ledger

-- `push_back` of an amount, if it is positive.
abbrev pub push_amount : List ℕ → ℕ → List ℕ
push_amount ledger amount = if ltb 0 amount then ledger ++ amount ∷ [] else ledger

abbrev pub charged : Option ℕ → ℕ → ℕ
charged limit estimate = if is_some limit then estimate else 0

-- The end of `try_admit`: the charges and the reservation.
unfoldable pub grant :
    GenerativeBudgetGovernor → BudgetAdmission → ℕ → GenerativeBudgetGovernor × BudgetReservation
unfolding fetch_add
grant g a now =
    let p = g.policy in
    let chars = charged p.max_tts_chars_per_interval a.estimated_tts_chars in
    let cost = charged p.max_estimated_cost_milliunits_per_interval a.estimated_cost_milliunits in
    let in_flight = fetch_add g.in_flight in
    (
      record g {
        llm_calls = push_call p.max_llm_calls_per_interval g.llm_calls now;
        tts_calls = push_call p.max_tts_calls_per_interval g.tts_calls now;
        tts_chars = push_amount g.tts_chars chars;
        cost_milliunits = push_amount g.cost_milliunits cost;
        in_flight = in_flight;
        in_flight_high_water = max g.in_flight_high_water in_flight;
      },
      record {
        granted_at_ms = now;
        charged_tts_chars = chars;
        charged_cost_milliunits = cost;
        in_flight_slot = true;
        finished = false;
      },
    )

abbrev pub uncharged_reservation : ℕ → BudgetReservation
uncharged_reservation now = record {
  granted_at_ms = now;
  charged_tts_chars = 0;
  charged_cost_milliunits = 0;
  in_flight_slot = false;
  finished = false;
}

pub data AdmitResult : Type 0 where
  admitted : BudgetReservation → AdmitResult
  denied : BudgetDenialReason → AdmitResult

-- Whether a request is counted at all.
abbrev pub is_accounted : GenerativeBudgetPolicy → BudgetAdmission → Bool
is_accounted p a = p.enabled && not (is_shadow a.priority && not p.charge_shadow_to_budget)

-- The request, once it is counted.
unfoldable pub admit_counted :
    GenerativeBudgetGovernor → BudgetAdmission → ℕ → GenerativeBudgetGovernor × AdmitResult
unfolding exhausted deny grant
admit_counted g a now = elim (exhausted g a) [
  | some reason ↦ (deny g reason, denied reason)
  | none ↦ ((grant g a now).0, admitted (grant g a now).1)
]

unfoldable pub try_admit :
    GenerativeBudgetGovernor → BudgetAdmission → ℕ → GenerativeBudgetGovernor × AdmitResult
unfolding trim_windows admit_counted
try_admit g a now =
    if is_accounted g.policy a
    then admit_counted (trim_windows g now) a now
    else (g, admitted (uncharged_reservation now))

-- `if let Some(slot) = in_flight_slot`
abbrev pub return_slot : GenerativeBudgetGovernor → Bool → GenerativeBudgetGovernor
return_slot g slot = if slot then record g { in_flight = fetch_sub g.in_flight } else g

abbrev pub finish : BudgetReservation → BudgetReservation
finish r = record r { in_flight_slot = false; finished = true }

-- `settle_units`
unfoldable pub settle_units :
    GenerativeBudgetGovernor → ℕ → ℕ → ℕ → ℕ → Bool → GenerativeBudgetGovernor
unfolding fetch_sub
settle_units g chars cost charged_chars charged_cost slot =
    let h = return_slot g slot in
    record h {
      tts_chars =
          push_amount h.tts_chars
            (charged h.policy.max_tts_chars_per_interval (chars - charged_chars));
      cost_milliunits =
          push_amount h.cost_milliunits
            (charged h.policy.max_estimated_cost_milliunits_per_interval (cost - charged_cost));
    }

-- `BudgetReservation::settle`
unfoldable pub settle :
    BudgetReservation
    → GenerativeBudgetGovernor
    → ℕ
    → ℕ
    → BudgetReservation × GenerativeBudgetGovernor
unfolding settle_units
settle r g chars cost = if r.finished then (r, g) else (
  finish r,
  settle_units g chars cost r.charged_tts_chars r.charged_cost_milliunits r.in_flight_slot,
)

-- `release_slot`
unfoldable pub release_slot : GenerativeBudgetGovernor → Bool → GenerativeBudgetGovernor
unfolding fetch_sub saturating_add
release_slot g slot =
    let h = return_slot g slot in
    record h { rejected_degraded = saturating_add h.rejected_degraded 1 }

-- `BudgetReservation::release`
unfoldable pub release :
    BudgetReservation → GenerativeBudgetGovernor → BudgetReservation × GenerativeBudgetGovernor
unfolding release_slot
release r g = if r.finished then (r, g) else (finish r, release_slot g r.in_flight_slot)

-- `Drop for BudgetReservation`
unfoldable pub drop_reservation :
    BudgetReservation → GenerativeBudgetGovernor → GenerativeBudgetGovernor
unfolding fetch_sub
drop_reservation r g = return_slot g r.in_flight_slot

unfoldable pub note_degraded : GenerativeBudgetGovernor → GenerativeBudgetGovernor
unfolding saturating_add
note_degraded g = record g { rejected_degraded = saturating_add g.rejected_degraded 1 }

unfoldable pub tick : GenerativeBudgetGovernor → ℕ → GenerativeBudgetGovernor
unfolding trim_windows
tick g now = trim_windows g now
