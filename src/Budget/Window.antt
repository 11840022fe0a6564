-- ===== src/Budget/Window.antt =====
-- crates/app/src/budget.rs: the rolling windows of calls, against the history of the granted calls.
use aivtuber.Common.{
  ℕ, ◌-◌, ◌≤◌, ◌<◌, ◌≡◌, refl, sym, ap, subst, ◌∙◌, inl, inr, none, some, List, [], ◌∷◌, ◌++◌,
  length, length-append, get_elem?, set, swap_remove, if◌then◌else◌, Bool-cases, Option-cases,
  arith,
}
use mathlib.Core.List.{append_assoc, append-nil}
use aivtuber.Budget.Data.{
  GenerativeBudgetPolicy, BudgetAdmission, GenerativeBudgetGovernor, ordinary_share,
}
use aivtuber.Budget.Governor
use aivtuber.Budget.Governor.{
  AdmitResult, admitted, denied, exhausted, effective_limit, is_high, grant, deny, push_call,
  trim_windows, trim_ledger, try_admit, uncharged_reservation,
}
use aivtuber.Budget.Admission.{free, refused, counted, outcome}
use aivtuber.Budget.Calls.{BudgetSession, BudgetCall, budget_call, budget_calls, new_session}
use aivtuber.Budget.Recent.{
  recent, Stands, wait-Stands, trim_ledger-Stands, push-Stands, length-trim_ledger,
}
use aivtuber.Budget.Ledgers.{
  CallLedger, llm_ledger, tts_ledger, settle-policy, release-policy, drop-policy,
}

-- The times of the calls do not go back.
abbrev pub IsTimed : ℕ → List BudgetCall → Type 0
IsTimed t [] = Unit
IsTimed t (BudgetCall.try_admit a now ∷ cs) = (t ≤ now) × IsTimed now cs
IsTimed t (BudgetCall.tick now ∷ cs) = (t ≤ now) × IsTimed now cs
IsTimed t (_ ∷ cs) = IsTimed t cs

abbrev pub last_time : ℕ → List BudgetCall → ℕ
last_time t [] = t
last_time t (BudgetCall.try_admit a now ∷ cs) = last_time now cs
last_time t (BudgetCall.tick now ∷ cs) = last_time now cs
last_time t (_ ∷ cs) = last_time t cs

-- Neither a request nor a tick.
abbrev IsUntimed : BudgetCall → Type 0
IsUntimed (BudgetCall.try_admit a now) = ⊥
IsUntimed (BudgetCall.tick now) = ⊥
IsUntimed _ = Unit

note-policy : (g : GenerativeBudgetGovernor) → (Governor.note_degraded g).policy ≡ g.policy
unfolding Governor.note_degraded
note-policy g = refl

-- The time of a request that is granted a slot.
abbrev pub charge : ℕ → AdmitResult → List ℕ
charge now (admitted r) = if r.in_flight_slot then now ∷ [] else []
charge now (denied reason) = []

-- The times of the requests that are granted a slot, in order.
unfoldable pub charged_calls : BudgetSession → List BudgetCall → List ℕ
unfolding budget_call try_admit
charged_calls s [] = []
charged_calls s (BudgetCall.try_admit a now ∷ cs) =
    charge now (try_admit s.governor a now).1
    ++ charged_calls (budget_call s (BudgetCall.try_admit a now)) cs
charged_calls s (c ∷ cs) = charged_calls (budget_call s c) cs

module _ (ledger : CallLedger) (p : GenerativeBudgetPolicy) (limit : ℕ)
    (limited : ledger.limit_of p ≡ some limit) where
  record InWindow (t : ℕ) (s : BudgetSession) (history : List ℕ) : Type 0 where
    policy_kept : s.governor.policy ≡ p
    stands : Stands p.interval_ms t (ledger.ledger_of s.governor) history
    capped : length (ledger.ledger_of s.governor) ≤ limit

  -- A call after which policy and ledger are as before.
  same_ledger :
      (t : ℕ) (s z : BudgetSession) (history : List ℕ)
      → z.governor.policy ≡ s.governor.policy
      → ledger.ledger_of z.governor ≡ ledger.ledger_of s.governor
      → InWindow t s history
      → InWindow t z history
  same_ledger t s z history policy same h = record {
    policy_kept = policy ∙ h.policy_kept;
    stands = subst (λ l. Stands p.interval_ms t l history) (sym same) h.stands;
    capped = rw same h.capped;
  }

  module _ (t u : ℕ) (s : BudgetSession) (history : List ℕ) (h : InWindow t s history)
      (le : t ≤ u) where
    waited : InWindow u s history
    waited = record {
      policy_kept = h.policy_kept;
      stands = wait-Stands p.interval_ms t u (ledger.ledger_of s.governor) history h.stands le;
      capped = h.capped;
    }

    trimmed : InWindow u (record s { governor = trim_windows s.governor u }) history
    unfolding trim_windows
    trimmed =
        let cut : ledger.ledger_of (trim_windows s.governor u)
            ≡ trim_ledger (u - p.interval_ms) (ledger.ledger_of s.governor) =
          ledger.trims s.governor u
          ∙ ap (λ q. trim_ledger (u - q.interval_ms) (ledger.ledger_of s.governor)) h.policy_kept in
        record {
          policy_kept = h.policy_kept;
          stands =
              subst (λ l. Stands p.interval_ms u l history) (sym cut)
                (trim_ledger-Stands p.interval_ms t u (ledger.ledger_of s.governor) history h.stands
                  le);
          capped = rw cut (
              omega (
                arith,
                length-trim_ledger (u - p.interval_ms) (ledger.ledger_of s.governor),
                h.capped,
              ));
        }

  effective_limit-le : (a : BudgetAdmission) → effective_limit p a limit ≤ limit
  unfolding ordinary_share
  effective_limit-le a = elim (Bool-cases (is_high a.priority)) [
    | inl e ↦ rw e (omega arith)
    | inr e ↦ rw e (omega arith)
  ]

  -- A request that is granted a slot goes into the ledger.
  granted :
      (u : ℕ) (s : BudgetSession) (history : List ℕ) (a : BudgetAdmission)
      → InWindow u s history
      → exhausted s.governor a ≡ none
      → InWindow u (record s { governor = (grant s.governor a u).0 }) (history ++ u ∷ [])
  unfolding grant
  granted u s history a h fits =
      let limit_is = ap ledger.limit_of h.policy_kept ∙ limited in
      let pushed : ledger.ledger_of (grant s.governor a u).0
          ≡ ledger.ledger_of s.governor ++ u ∷ [] =
        ledger.grants s.governor a u ∙ rw limit_is refl in
      let room : length (ledger.ledger_of s.governor) < effective_limit p a limit =
        subst (λ q. length (ledger.ledger_of s.governor) < effective_limit q a limit) h.policy_kept
          (ledger.has_room s.governor a limit limit_is fits) in
      record {
        policy_kept = h.policy_kept;
        stands =
            subst (λ l. Stands p.interval_ms u l (history ++ u ∷ [])) (sym pushed)
              (push-Stands p.interval_ms u u (ledger.ledger_of s.governor) history h.stands
                (omega arith));
        capped = rw pushed (
            omega (
              arith,
              length-append (ledger.ledger_of s.governor) (u ∷ []),
              room,
              effective_limit-le a,
            ));
      }

  admit-InWindow :
      (t now : ℕ) (s : BudgetSession) (history : List ℕ) (a : BudgetAdmission)
      → InWindow t s history
      → t ≤ now
      → InWindow now
          (budget_call s (BudgetCall.try_admit a now))
          (history ++ charge now (try_admit s.governor a now).1)
  unfolding budget_call deny
  admit-InWindow t now s history a h le = elim (outcome s.governor a now) [
    | free e made ↦
        rw (made, budget_call, append-nil)
          (same_ledger now s
            (record {
              governor = s.governor;
              reservations = s.reservations ++ uncharged_reservation now ∷ [];
            })
            history refl refl (waited t now s history h le))
    | refused reason over made ↦
        let cut = trimmed t now s history h le in
        rw (made, budget_call, append-nil)
          (same_ledger now (record s { governor = trim_windows s.governor now })
            (record {
              governor = deny (trim_windows s.governor now) reason;
              reservations = s.reservations;
            })
            history refl (ledger.denies (trim_windows s.governor now) reason) cut)
    | counted e fits made ↦
        let cut = trimmed t now s history h le in
        rw (made, budget_call)
          (same_ledger now (record s { governor = (grant (trim_windows s.governor now) a now).0 })
            (record {
              governor = (grant (trim_windows s.governor now) a now).0;
              reservations = s.reservations ++ (grant (trim_windows s.governor now) a now).1 ∷ [];
            })
            (history ++ now ∷ []) refl refl
            (granted now (record s { governor = trim_windows s.governor now }) history a cut fits))
  ]

  -- A call that is neither a request nor a tick.
  keeps-InWindow :
      (t : ℕ) (s : BudgetSession) (history : List ℕ) (c : BudgetCall)
      → IsUntimed c
      → InWindow t s history
      → InWindow t (budget_call s c) history
  unfolding budget_call
  keeps-InWindow t s history (BudgetCall.settle i chars cost) calm h =
      elim (Option-cases (get_elem? s.reservations i)) [
        | inl absent ↦ rw (absent, budget_call) h
        | inr (r, at) ↦
            let (q, g) = Governor.settle r s.governor chars cost in
            rw (at, budget_call)
              (same_ledger t s (record { governor = g; reservations = set s.reservations i q })
                history (settle-policy r s.governor chars cost)
                (ledger.settles r s.governor chars cost) h)
      ]
  keeps-InWindow t s history (BudgetCall.release i) calm h =
      elim (Option-cases (get_elem? s.reservations i)) [
        | inl absent ↦ rw (absent, budget_call) h
        | inr (r, at) ↦
            let (q, g) = Governor.release r s.governor in
            rw (at, budget_call)
              (same_ledger t s (record { governor = g; reservations = set s.reservations i q })
                history (release-policy r s.governor) (ledger.releases r s.governor) h)
      ]
  keeps-InWindow t s history (BudgetCall.drop i) calm h =
      elim (Option-cases (get_elem? s.reservations i)) [
        | inl absent ↦ rw (absent, budget_call) h
        | inr (r, at) ↦
            let g = Governor.drop_reservation r s.governor in
            rw (at, budget_call)
              (same_ledger t s
                (record { governor = g; reservations = swap_remove s.reservations i }) history
                (drop-policy r s.governor) (ledger.drops r s.governor) h)
      ]
  keeps-InWindow t s history (BudgetCall.try_admit a now) calm h = elim calm [ ]
  keeps-InWindow t s history (BudgetCall.tick now) calm h = elim calm [ ]
  keeps-InWindow t s history BudgetCall.note_degraded calm h =
      let g = Governor.note_degraded s.governor in
      same_ledger t s (record s { governor = g }) history (note-policy s.governor)
        (ledger.notes s.governor) h

  calls-InWindow :
      (t : ℕ) (s : BudgetSession) (history : List ℕ) (cs : List BudgetCall)
      → IsTimed t cs
      → InWindow t s history
      → InWindow (last_time t cs) (budget_calls s cs) (history ++ charged_calls s cs)
  unfolding budget_calls charged_calls Governor.tick
  calls-InWindow t s history [] timed h = rw append-nil h
  calls-InWindow t s history (BudgetCall.try_admit a now ∷ cs) (le, timed) h = rw (← append_assoc) (
      calls-InWindow now (budget_call s (BudgetCall.try_admit a now))
        (history ++ charge now (try_admit s.governor a now).1) cs timed
        (admit-InWindow t now s history a h le))
  calls-InWindow t s history (BudgetCall.tick now ∷ cs) (le, timed) h =
      calls-InWindow now (budget_call s (BudgetCall.tick now)) history cs timed
        (trimmed t now s history h le)
  calls-InWindow t s history (BudgetCall.settle i chars cost ∷ cs) timed h =
      calls-InWindow t (budget_call s (BudgetCall.settle i chars cost)) history cs timed
        (keeps-InWindow t s history (BudgetCall.settle i chars cost) tt h)
  calls-InWindow t s history (BudgetCall.release i ∷ cs) timed h =
      calls-InWindow t (budget_call s (BudgetCall.release i)) history cs timed
        (keeps-InWindow t s history (BudgetCall.release i) tt h)
  calls-InWindow t s history (BudgetCall.drop i ∷ cs) timed h =
      calls-InWindow t (budget_call s (BudgetCall.drop i)) history cs timed
        (keeps-InWindow t s history (BudgetCall.drop i) tt h)
  calls-InWindow t s history (BudgetCall.note_degraded ∷ cs) timed h =
      calls-InWindow t (budget_call s BudgetCall.note_degraded) history cs timed
        (keeps-InWindow t s history BudgetCall.note_degraded tt h)

  calls_in_window :
      (cs : List BudgetCall) (now : ℕ)
      → IsTimed 0 cs
      → last_time 0 cs ≤ now
      → (ledger.ledger_of (trim_windows (budget_calls (new_session p) cs).governor now)
          ≡ recent (now - p.interval_ms) (charged_calls (new_session p) cs))
        × (length (recent (now - p.interval_ms) (charged_calls (new_session p) cs)) ≤ limit)
  unfolding trim_ledger
  calls_in_window cs now timed later =
      let g = (budget_calls (new_session p) cs).governor in
      let h = calls-InWindow 0 (new_session p) [] cs timed start in
      let cut = h.stands.agrees now later in
      (
        ledger.trims g now
            ∙ ap (λ q. trim_ledger (now - q.interval_ms) (ledger.ledger_of g)) h.policy_kept
            ∙ cut,
        rw (← cut) (
            omega (arith, length-trim_ledger (now - p.interval_ms) (ledger.ledger_of g), h.capped)),
      )
    where
      start : InWindow 0 (new_session p) []
      start = record {
        policy_kept = refl;
        stands = rw (ledger.starts_empty p) (record { agrees = λ now le. refl; past = tt });
        capped = rw (ledger.starts_empty p) (omega arith);
      }

-- Under a policy with a limit on language-model calls, after any sequence of requests, settlements,
-- releases, drops and ticks on a new governor whose times do not go back, and at any time that is
-- not before the last of them: the calls that the governor still counts are exactly the requests
-- that were granted a slot within the last interval, in order, and they are at most the limit.
pub llm_calls_in_window :
    (p : GenerativeBudgetPolicy) (limit : ℕ) (cs : List BudgetCall) (now : ℕ)
    → p.max_llm_calls_per_interval ≡ some limit
    → IsTimed 0 cs
    → last_time 0 cs ≤ now
    → ((trim_windows (budget_calls (new_session p) cs).governor now).llm_calls
        ≡ recent (now - p.interval_ms) (charged_calls (new_session p) cs))
      × (length (recent (now - p.interval_ms) (charged_calls (new_session p) cs)) ≤ limit)
unfolding llm_ledger
llm_calls_in_window p limit cs now limited timed later =
    calls_in_window llm_ledger p limit limited cs now timed later

-- The same for the calls of speech synthesis, under a policy with a limit on those.
pub tts_calls_in_window :
    (p : GenerativeBudgetPolicy) (limit : ℕ) (cs : List BudgetCall) (now : ℕ)
    → p.max_tts_calls_per_interval ≡ some limit
    → IsTimed 0 cs
    → last_time 0 cs ≤ now
    → ((trim_windows (budget_calls (new_session p) cs).governor now).tts_calls
        ≡ recent (now - p.interval_ms) (charged_calls (new_session p) cs))
      × (length (recent (now - p.interval_ms) (charged_calls (new_session p) cs)) ≤ limit)
unfolding tts_ledger
tts_calls_in_window p limit cs now limited timed later =
    calls_in_window tts_ledger p limit limited cs now timed later
