-- ===== src/Budget/Concurrent.antt =====
-- crates/app/src/budget.rs: the counter of generations in flight.
use aivtuber.Common.{
  ℕ, ◌+◌, ◌≤◌, ◌<◌, ◌≡◌, refl, ap, ◌∙◌, inl, inr, Bool, true, none, some, List, [], ◌∷◌, ◌++◌,
  get_elem?, set, swap_remove, leb, Bool-cases, Option-cases, arith,
}
use aivtuber.Common.Count.{count_if, weight, count_if-set, count_if-swap_remove}
use aivtuber.Budget.Data.{
  GenerativeBudgetPolicy, BudgetAdmission, BudgetReservation, GenerativeBudgetGovernor, fetch_add,
  fetch_sub,
}
use aivtuber.Budget.Governor
use aivtuber.Budget.Governor.{
  finish, uncharged_reservation, return_slot, settle_units, release_slot, finish,
  uncharged_reservation, exhausted, admitted, denied, is_reached, grant, deny, trim_windows,
  is_accounted, admit_counted,
}
use aivtuber.Budget.Admission.{free, refused, counted, outcome}
use aivtuber.Budget.Calls.{BudgetSession, BudgetCall, budget_call, budget_calls, new_session}

fetch_add_exact : (n : ℕ) → n + 1 < 4294967296 → fetch_add n ≡ n + 1
unfolding fetch_add
fetch_add_exact n h = omega arith

fetch_sub_exact : (n : ℕ) → 0 < n → n < 4294967296 → fetch_sub n + 1 ≡ n
unfolding fetch_sub
fetch_sub_exact n some_held h = omega arith

abbrev pub holds : BudgetReservation → Bool
holds r = r.in_flight_slot

count_if-push :
    (rs : List BudgetReservation) (r : BudgetReservation)
    → count_if holds (rs ++ r ∷ []) ≡ count_if holds rs + weight holds r
count_if-push [] r = omega arith
count_if-push (x ∷ xs) r = omega (arith, count_if-push xs r)

-- A reservation that is finished is not settled or released again.
settle-finished :
    (r : BudgetReservation) (g : GenerativeBudgetGovernor) (chars cost : ℕ)
    → r.finished ≡ true
    → Governor.settle r g chars cost ≡ (r, g)
unfolding Governor.settle
settle-finished r g chars cost e = ground arith

release-finished :
    (r : BudgetReservation) (g : GenerativeBudgetGovernor)
    → r.finished ≡ true
    → Governor.release r g ≡ (r, g)
unfolding Governor.release
release-finished r g e = ground arith

-- The counter is the number of reservations that hold a slot, and keeps to the limit.
pub record IsCounted (p : GenerativeBudgetPolicy) (limit : ℕ) (s : BudgetSession) : Type 0 where
  pub policy_kept : s.governor.policy ≡ p
  pub counted : s.governor.in_flight ≡ count_if holds s.reservations
  pub capped : s.governor.in_flight ≤ limit
  pub high_water_capped : s.governor.in_flight_high_water ≤ limit

module _ (p : GenerativeBudgetPolicy) (limit : ℕ)
    (limited : p.max_concurrent_generations ≡ some limit) (word : limit < 4294967296) where
  exhausted-room :
      (g : GenerativeBudgetGovernor) (a : BudgetAdmission)
      → g.policy ≡ p
      → exhausted g a ≡ none
      → g.in_flight < limit
  unfolding exhausted
  exhausted-room g a same e =
      let set : g.policy.max_concurrent_generations ≡ some limit =
        ap (λ q. q.max_concurrent_generations) same ∙ limited in
      elim (Bool-cases (leb limit g.in_flight)) [
        | inr below ↦ ground arith
        | inl full ↦ absurd (ground arith)
      ]

  try_admit-IsCounted :
      (s : BudgetSession) (a : BudgetAdmission) (now : ℕ)
      → IsCounted p limit s
      → IsCounted p limit (budget_call s (BudgetCall.try_admit a now))
  unfolding budget_call grant deny trim_windows
  try_admit-IsCounted s a now h = elim (outcome s.governor a now) [
    | free e made ↦
        rw (made, budget_call)
          (record {
            policy_kept = h.policy_kept;
            counted =
                omega (arith, h.counted, count_if-push s.reservations (uncharged_reservation now));
            capped = h.capped;
            high_water_capped = h.high_water_capped;
          })
    | refused reason over made ↦
        rw (made, budget_call)
          (record {
            policy_kept = h.policy_kept;
            counted = h.counted;
            capped = h.capped;
            high_water_capped = h.high_water_capped;
          })
    | counted e fits made ↦
        let room = exhausted-room (trim_windows s.governor now) a h.policy_kept fits in
        let up = fetch_add_exact s.governor.in_flight (omega (arith, room, word)) in
        rw (made, budget_call)
          (record {
            policy_kept = h.policy_kept;
            counted = omega (
              arith,
              up,
              h.counted,
              count_if-push s.reservations (grant (trim_windows s.governor now) a now).1,
            );
            capped = omega (arith, up, room);
            high_water_capped = omega (arith, up, room, h.high_water_capped);
          })
  ]

  -- A slot that is given back.
  module _ (s : BudgetSession) (h : IsCounted p limit s) (i : ℕ) (r : BudgetReservation)
      (at : get_elem? s.reservations i ≡ some r) where
    returned :
        (return_slot s.governor r.in_flight_slot).in_flight + weight holds r ≡ s.governor.in_flight
    returned =
        let sum = count_if-set holds s.reservations i (finish r) at in
        elim (Bool-cases r.in_flight_slot) [
          | inr e ↦ rw e (omega arith)
          | inl e ↦
              let some_held : 0 < s.governor.in_flight = ground (arith, sum, h.counted) in
              rw e (fetch_sub_exact s.governor.in_flight some_held (omega (arith, h.capped, word)))
        ]

    given_back :
        (g : GenerativeBudgetGovernor) (rs : List BudgetReservation)
        → g.policy ≡ s.governor.policy
        → g.in_flight + weight holds r ≡ s.governor.in_flight
        → g.in_flight_high_water ≡ s.governor.in_flight_high_water
        → count_if holds rs + weight holds r ≡ count_if holds s.reservations
        → IsCounted p limit (record { governor = g; reservations = rs })
    given_back g rs same back high fewer = record {
      policy_kept = same ∙ h.policy_kept;
      counted = omega (arith, back, fewer, h.counted);
      capped = omega (arith, back, h.capped);
      high_water_capped = omega (arith, high, h.high_water_capped);
    }

    unchanged :
        IsCounted p limit (record { governor = s.governor; reservations = set s.reservations i r })
    unchanged = record {
      policy_kept = h.policy_kept;
      counted = omega (arith, h.counted, count_if-set holds s.reservations i r at);
      capped = h.capped;
      high_water_capped = h.high_water_capped;
    }

    fewer :
        count_if holds (set s.reservations i (finish r)) + weight holds r
        ≡ count_if holds s.reservations
    fewer = omega (arith, count_if-set holds s.reservations i (finish r) at)

    policy_stays : (return_slot s.governor r.in_flight_slot).policy ≡ s.governor.policy
    policy_stays = elim (Bool-cases r.in_flight_slot) [ inl e ↦ rw e refl | inr e ↦ rw e refl ]

    high_stays :
        (return_slot s.governor r.in_flight_slot).in_flight_high_water
        ≡ s.governor.in_flight_high_water
    high_stays = elim (Bool-cases r.in_flight_slot) [ inl e ↦ rw e refl | inr e ↦ rw e refl ]

    settle-IsCounted :
        (chars cost : ℕ) → IsCounted p limit (budget_call s (BudgetCall.settle i chars cost))
    unfolding budget_call Governor.settle Governor.settle_units
    settle-IsCounted chars cost = elim (Bool-cases r.finished) [
      | inl e ↦ rw (at, budget_call, settle-finished r s.governor chars cost e) unchanged
      | inr e ↦
          rw (at, budget_call, e, Governor.settle)
            (given_back
              (settle_units s.governor chars cost r.charged_tts_chars r.charged_cost_milliunits
                r.in_flight_slot)
              (set s.reservations i (finish r)) policy_stays returned high_stays fewer)
    ]

    release-IsCounted : IsCounted p limit (budget_call s (BudgetCall.release i))
    unfolding budget_call Governor.release Governor.release_slot
    release-IsCounted = elim (Bool-cases r.finished) [
      | inl e ↦ rw (at, budget_call, release-finished r s.governor e) unchanged
      | inr e ↦
          rw (at, budget_call, e, Governor.release)
            (given_back (release_slot s.governor r.in_flight_slot) (set s.reservations i (finish r))
              policy_stays returned high_stays fewer)
    ]

    drop-IsCounted : IsCounted p limit (budget_call s (BudgetCall.drop i))
    unfolding budget_call Governor.drop_reservation
    drop-IsCounted =
        rw (at, budget_call)
          (given_back (return_slot s.governor r.in_flight_slot) (swap_remove s.reservations i)
            policy_stays returned high_stays (count_if-swap_remove holds s.reservations i at))

  budget_call-IsCounted :
      (s : BudgetSession) (c : BudgetCall)
      → IsCounted p limit s
      → IsCounted p limit (budget_call s c)
  unfolding budget_call Governor.note_degraded Governor.tick trim_windows
  budget_call-IsCounted s (BudgetCall.try_admit a now) h = try_admit-IsCounted s a now h
  budget_call-IsCounted s (BudgetCall.settle i chars cost) h =
      elim (Option-cases (get_elem? s.reservations i)) [
        | inl absent ↦ rw (absent, budget_call) h
        | inr (r, at) ↦ settle-IsCounted s h i r at chars cost
      ]
  budget_call-IsCounted s (BudgetCall.release i) h =
      elim (Option-cases (get_elem? s.reservations i)) [
        | inl absent ↦ rw (absent, budget_call) h
        | inr (r, at) ↦ release-IsCounted s h i r at
      ]
  budget_call-IsCounted s (BudgetCall.drop i) h = elim (Option-cases (get_elem? s.reservations i)) [
    | inl absent ↦ rw (absent, budget_call) h
    | inr (r, at) ↦ drop-IsCounted s h i r at
  ]
  budget_call-IsCounted s BudgetCall.note_degraded h = record {
    policy_kept = h.policy_kept;
    counted = h.counted;
    capped = h.capped;
    high_water_capped = h.high_water_capped;
  }
  budget_call-IsCounted s (BudgetCall.tick now) h = record {
    policy_kept = h.policy_kept;
    counted = h.counted;
    capped = h.capped;
    high_water_capped = h.high_water_capped;
  }

  budget_calls-IsCounted :
      (s : BudgetSession) (cs : List BudgetCall)
      → IsCounted p limit s
      → IsCounted p limit (budget_calls s cs)
  unfolding budget_calls
  budget_calls-IsCounted s [] h = h
  budget_calls-IsCounted s (c ∷ cs) h =
      budget_calls-IsCounted (budget_call s c) cs (budget_call-IsCounted s c h)

  -- Under a policy with a limit on concurrent generations that is a 32-bit word, after any
  -- sequence of requests, settlements, releases, drops and ticks on a new governor: the counter of
  -- generations in flight is the number of granted reservations that still hold a slot, and neither
  -- it nor its high-water mark is above the limit.
  pub in_flight-IsCounted :
      (cs : List BudgetCall) → IsCounted p limit (budget_calls (new_session p) cs)
  in_flight-IsCounted cs = budget_calls-IsCounted (new_session p) cs (record {
    policy_kept = refl;
    counted = refl;
    capped = omega arith;
    high_water_capped = omega arith;
  })
