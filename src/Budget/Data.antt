-- ===== src/Budget/Data.antt =====
-- crates/app/src/budget.rs: the policy, its shares, requests, reservations and the governor's state.
use Prim.Native.Nat.{◌%◌, ◌/◌}
use aivtuber.Common.{
  ℕ, ◌+◌, ◌*◌, ◌-◌, ◌^◌, min, String, Bool, true, false, ◌&&◌, Option, none, some, List, [], ltb,
  eqb, if◌then◌else◌,
}
use aivtuber.Common.Word.{u64_max}
use aivtuber.Task.Data.{is_blank}

pub record GenerativeBudgetPolicy : Type 0 where
  pub enabled : Bool
  pub max_concurrent_generations : Option ℕ
  pub max_llm_calls_per_interval : Option ℕ
  pub max_tts_calls_per_interval : Option ℕ
  pub max_llm_units_per_interval : Option ℕ
  pub max_tts_chars_per_interval : Option ℕ
  pub max_estimated_cost_milliunits_per_interval : Option ℕ
  pub pricing_input_version : Option String
  pub interval_ms : ℕ
  pub high_priority_reserve_percent : ℕ
  pub charge_shadow_to_budget : Bool

-- `GenerativeBudgetPolicy::default`
abbrev pub default_policy : GenerativeBudgetPolicy
default_policy = record {
  enabled = false;
  max_concurrent_generations = none;
  max_llm_calls_per_interval = none;
  max_tts_calls_per_interval = none;
  max_llm_units_per_interval = none;
  max_tts_chars_per_interval = none;
  max_estimated_cost_milliunits_per_interval = none;
  pricing_input_version = none;
  interval_ms = 60000;
  high_priority_reserve_percent = 0;
  charge_shadow_to_budget = false;
}

pub record BudgetConfigError : Type 0 where
  pub field : String
  pub message : String

pub data PolicyResult : Type 0 where
  ok : GenerativeBudgetPolicy → PolicyResult
  err : BudgetConfigError → PolicyResult

-- `limit == Some(0)`
abbrev is_zero_limit : Option ℕ → Bool
is_zero_limit none = false
is_zero_limit (some limit) = eqb limit 0

abbrev pub is_some {ℓ} : {A : Type ℓ} → Option A → Bool
is_some none = false
is_some (some a) = true

-- `is_none_or(|version| version.trim().is_empty())`
abbrev lacks_version : Option String → Bool
lacks_version none = true
lacks_version (some version) = is_blank version

abbrev zero_limit : String → BudgetConfigError
zero_limit name = record { field = name; message = "must be greater than zero when enforced" }

-- `GenerativeBudgetPolicy::validate`
unfoldable pub validate : GenerativeBudgetPolicy → PolicyResult
unfolding is_blank
validate p =
    if eqb p.interval_ms 0
    then err (record { field = "interval_ms"; message = "must be greater than zero" })
    else if is_zero_limit p.max_concurrent_generations
    then err (zero_limit "max_concurrent_generations")
    else if is_zero_limit p.max_llm_calls_per_interval
    then err (zero_limit "max_llm_calls_per_interval")
    else if is_zero_limit p.max_tts_calls_per_interval
    then err (zero_limit "max_tts_calls_per_interval")
    else if is_zero_limit p.max_llm_units_per_interval
    then err (zero_limit "max_llm_units_per_interval")
    else if is_zero_limit p.max_tts_chars_per_interval
    then err (zero_limit "max_tts_chars_per_interval")
    else if is_zero_limit p.max_estimated_cost_milliunits_per_interval
    then err (zero_limit "max_estimated_cost_milliunits_per_interval")
    else if is_some p.max_estimated_cost_milliunits_per_interval
        && lacks_version p.pricing_input_version
    then err (record {
      field = "pricing_input_version";
      message = "is required when a cost budget is configured";
    })
    else if ltb 100 p.high_priority_reserve_percent
    then err
        (record { field = "high_priority_reserve_percent"; message = "must be within 0..=100" })
    else ok p

-- `GenerativeBudgetPolicy::reserve_share`
unfoldable pub reserve_share : GenerativeBudgetPolicy → ℕ → ℕ
reserve_share p limit = min (limit * p.high_priority_reserve_percent) u64_max / 100

-- `GenerativeBudgetPolicy::ordinary_share`
unfoldable pub ordinary_share : GenerativeBudgetPolicy → ℕ → ℕ
unfolding reserve_share
ordinary_share p limit = limit - reserve_share p limit

pub data BudgetPriorityClass : Type 0 where
  high ordinary shadow : BudgetPriorityClass

pub data BudgetDenialReason : Type 0 where
  concurrent_budget_exhausted llm_call_budget_exhausted : BudgetDenialReason
  tts_call_budget_exhausted llm_unit_budget_exhausted : BudgetDenialReason
  tts_char_budget_exhausted cost_budget_exhausted : BudgetDenialReason

pub record BudgetAdmission : Type 0 where
  pub priority : BudgetPriorityClass
  pub estimated_tts_chars : ℕ
  pub estimated_cost_milliunits : ℕ

-- `in_flight_slot` says whether the reservation holds the governor's counter.
pub record BudgetReservation : Type 0 where
  pub granted_at_ms : ℕ
  pub charged_tts_chars : ℕ
  pub charged_cost_milliunits : ℕ
  pub in_flight_slot : Bool
  pub finished : Bool

pub record GenerativeBudgetGovernor : Type 0 where
  pub policy : GenerativeBudgetPolicy
  pub llm_calls : List ℕ
  pub tts_calls : List ℕ
  pub llm_units : List ℕ
  pub tts_chars : List ℕ
  pub cost_milliunits : List ℕ
  pub in_flight : ℕ
  pub in_flight_high_water : ℕ
  pub denied_total : ℕ
  pub rejected_degraded : ℕ
  pub denials_by_reason : List (BudgetDenialReason × ℕ)

-- `GenerativeBudgetGovernor::new`
abbrev pub new_governor : GenerativeBudgetPolicy → GenerativeBudgetGovernor
new_governor p = record {
  policy = p;
  llm_calls = [];
  tts_calls = [];
  llm_units = [];
  tts_chars = [];
  cost_milliunits = [];
  in_flight = 0;
  in_flight_high_water = 0;
  denied_total = 0;
  rejected_degraded = 0;
  denials_by_reason = [];
}

-- The counter is a `u32`, whose `fetch_add` and `fetch_sub` wrap around.
unfoldable pub fetch_add : ℕ → ℕ
fetch_add n = (n + 1) % 2 ^ 32

unfoldable pub fetch_sub : ℕ → ℕ
fetch_sub n = (n + 2 ^ 32 - 1) % 2 ^ 32
