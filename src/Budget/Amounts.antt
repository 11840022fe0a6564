-- ===== src/Budget/Amounts.antt =====
-- crates/app/src/budget.rs: the ledgers of amounts, whose entries `trim_windows` reads as times.
use aivtuber.Common.{
  ℕ, ◌-◌, ◌≤◌, ◌<◌, ◌≡◌, ◌≢◌, refl, sym, ap, ◌∙◌, inl, inr, true, some, List, [], ◌∷◌, get_elem?,
  Option-cases, arith,
}
use aivtuber.Common.Each.{Each}
use aivtuber.Common.Word.{saturating_add}
use aivtuber.Budget.Data.{
  ordinary_share, GenerativeBudgetPolicy, BudgetAdmission, BudgetDenialReason, BudgetReservation,
  GenerativeBudgetGovernor,
}
use aivtuber.Budget.Governor
use aivtuber.Budget.Governor.{
  AdmitResult, admitted, denied, try_admit, exhausted, effective_limit, is_reached, is_passed,
  share, grant, deny, trim_windows, trim_ledger, sum,
}
use aivtuber.Budget.Admission.{free, refused, counted, outcome}
use aivtuber.Budget.Calls.{BudgetSession, BudgetCall, budget_call, budget_calls, new_session}
use aivtuber.Budget.Ledgers.{ledgers, settle-policy, release-policy, drop-policy}

exhausted-units :
    (g : GenerativeBudgetGovernor) (a : BudgetAdmission)
    → exhausted g a ≡ some BudgetDenialReason.llm_unit_budget_exhausted
    → is_reached (sum g.llm_units) g.policy.max_llm_units_per_interval ≡ true
unfolding exhausted
exhausted-units g a e = ground arith

exhausted-chars :
    (g : GenerativeBudgetGovernor) (a : BudgetAdmission)
    → exhausted g a ≡ some BudgetDenialReason.tts_char_budget_exhausted
    → is_passed
        (saturating_add (sum g.tts_chars) a.estimated_tts_chars)
        (share g.policy a g.policy.max_tts_chars_per_interval)
      ≡ true
unfolding exhausted
exhausted-chars g a e = ground arith

-- The reason of a denial is the budget that was exhausted.
denied-exhausted :
    (g : GenerativeBudgetGovernor) (a : BudgetAdmission) (now : ℕ) (reason : BudgetDenialReason)
    → (try_admit g a now).1 ≡ denied reason
    → exhausted (trim_windows g now) a ≡ some reason
denied-exhausted g a now reason e = elim (outcome g a now) [
  | free off made ↦ absurd (ground (arith, made))
  | counted on fits made ↦ absurd (ground (arith, made))
  | refused other over made ↦ ground (arith, made)
]

all_trimmed : (h : ℕ) (ledger : List ℕ) → Each (λ x. x < h) ledger → trim_ledger h ledger ≡ []
unfolding trim_ledger
all_trimmed h [] below = refl
all_trimmed h (x ∷ xs) (first, rest) = ground (arith, all_trimmed h xs rest)

-- A ledger of characters whose amounts are all less than the start of the window, as a number of
-- milliseconds, counts for nothing, however recent its entries are: a request that by itself is
-- within its part of the limit is not denied for characters.
pub tts_chars_forgotten :
    (g : GenerativeBudgetGovernor) (a : BudgetAdmission) (now limit : ℕ)
    → g.policy.max_tts_chars_per_interval ≡ some limit
    → Each (λ amount. amount < now - g.policy.interval_ms) g.tts_chars
    → a.estimated_tts_chars ≤ effective_limit g.policy a limit
    → (try_admit g a now).1 ≢ denied BudgetDenialReason.tts_char_budget_exhausted
unfolding trim_windows sum saturating_add ordinary_share
tts_chars_forgotten g a now limit limited small fits e =
    let over =
      exhausted-chars (trim_windows g now) a
        (denied-exhausted g a now BudgetDenialReason.tts_char_budget_exhausted e) in
    let gone = all_trimmed (now - g.policy.interval_ms) g.tts_chars small in
    let passed : is_passed (saturating_add (sum []) a.estimated_tts_chars)
          (share g.policy a (some limit))
        ≡ true =
      rw (gone, limited) at over in
    ground arith

-- Nothing writes to the ledger of language-model units.
record HasNoUnits (p : GenerativeBudgetPolicy) (g : GenerativeBudgetGovernor) : Type 0 where
  policy_kept : g.policy ≡ p
  no_units : g.llm_units ≡ []

settle-units :
    (r : BudgetReservation) (g : GenerativeBudgetGovernor) (chars cost : ℕ)
    → (Governor.settle r g chars cost).1.llm_units ≡ g.llm_units
unfolding ledgers
settle-units r g chars cost = ground arith

release-units :
    (r : BudgetReservation) (g : GenerativeBudgetGovernor)
    → (Governor.release r g).1.llm_units ≡ g.llm_units
unfolding ledgers
release-units r g = ground arith

drop-units :
    (r : BudgetReservation) (g : GenerativeBudgetGovernor)
    → (Governor.drop_reservation r g).llm_units ≡ g.llm_units
unfolding ledgers
drop-units r g = ground arith

trim_windows-HasNoUnits :
    (p : GenerativeBudgetPolicy) (g : GenerativeBudgetGovernor) (now : ℕ)
    → HasNoUnits p g
    → HasNoUnits p (trim_windows g now)
unfolding trim_windows trim_ledger
trim_windows-HasNoUnits p g now h = record {
  policy_kept = h.policy_kept;
  no_units = ap (trim_ledger (now - g.policy.interval_ms)) h.no_units;
}

budget_call-HasNoUnits :
    (p : GenerativeBudgetPolicy) (s : BudgetSession) (c : BudgetCall)
    → HasNoUnits p s.governor
    → HasNoUnits p (budget_call s c).governor
unfolding budget_call grant deny Governor.tick Governor.note_degraded
budget_call-HasNoUnits p s (BudgetCall.try_admit a now) h =
    let cut = trim_windows-HasNoUnits p s.governor now h in
    elim (outcome s.governor a now) [
      | free off made ↦ rw (made, budget_call) h
      | refused reason over made ↦
          rw (made, budget_call) (record { policy_kept = cut.policy_kept; no_units = cut.no_units })
      | counted on fits made ↦
          rw (made, budget_call) (record { policy_kept = cut.policy_kept; no_units = cut.no_units })
    ]
budget_call-HasNoUnits p s (BudgetCall.settle i chars cost) h =
    elim (Option-cases (get_elem? s.reservations i)) [
      | inl absent ↦ rw (absent, budget_call) h
      | inr (r, at) ↦
          rw (at, budget_call)
            (record {
              policy_kept = settle-policy r s.governor chars cost ∙ h.policy_kept;
              no_units = settle-units r s.governor chars cost ∙ h.no_units;
            })
    ]
budget_call-HasNoUnits p s (BudgetCall.release i) h =
    elim (Option-cases (get_elem? s.reservations i)) [
      | inl absent ↦ rw (absent, budget_call) h
      | inr (r, at) ↦
          rw (at, budget_call)
            (record {
              policy_kept = release-policy r s.governor ∙ h.policy_kept;
              no_units = release-units r s.governor ∙ h.no_units;
            })
    ]
budget_call-HasNoUnits p s (BudgetCall.drop i) h =
    elim (Option-cases (get_elem? s.reservations i)) [
      | inl absent ↦ rw (absent, budget_call) h
      | inr (r, at) ↦
          rw (at, budget_call)
            (record {
              policy_kept = drop-policy r s.governor ∙ h.policy_kept;
              no_units = drop-units r s.governor ∙ h.no_units;
            })
    ]
budget_call-HasNoUnits p s BudgetCall.note_degraded h = record {
  policy_kept = h.policy_kept;
  no_units = h.no_units;
}
budget_call-HasNoUnits p s (BudgetCall.tick now) h = trim_windows-HasNoUnits p s.governor now h

budget_calls-HasNoUnits :
    (p : GenerativeBudgetPolicy) (s : BudgetSession) (cs : List BudgetCall)
    → HasNoUnits p s.governor
    → HasNoUnits p (budget_calls s cs).governor
unfolding budget_calls
budget_calls-HasNoUnits p s [] h = h
budget_calls-HasNoUnits p s (c ∷ cs) h =
    budget_calls-HasNoUnits p (budget_call s c) cs (budget_call-HasNoUnits p s c h)

-- Under a policy with a positive limit on language-model units, after any sequence of calls on a new
-- governor, no request is denied for units: the limit has no effect.
pub llm_units_unenforced :
    (p : GenerativeBudgetPolicy) (limit : ℕ) (cs : List BudgetCall) (a : BudgetAdmission) (now : ℕ)
    → p.max_llm_units_per_interval ≡ some limit
    → 0 < limit
    → (try_admit (budget_calls (new_session p) cs).governor a now).1
      ≢ denied BudgetDenialReason.llm_unit_budget_exhausted
unfolding sum
llm_units_unenforced p limit cs a now limited positive e =
    let g = (budget_calls (new_session p) cs).governor in
    let h = trim_windows-HasNoUnits p g now (
      budget_calls-HasNoUnits p (new_session p) cs
        (record { policy_kept = refl; no_units = refl })) in
    let over =
      exhausted-units (trim_windows g now) a
        (denied-exhausted g a now BudgetDenialReason.llm_unit_budget_exhausted e) in
    let limit_is = ap (λ q. q.max_llm_units_per_interval) h.policy_kept ∙ limited in
    let reached : is_reached (sum []) (some limit) ≡ true =
      ap (λ l. is_reached (sum l) (some limit)) (sym h.no_units)
      ∙ ap (is_reached (sum (trim_windows g now).llm_units)) (sym limit_is)
      ∙ over in
    ground arith
