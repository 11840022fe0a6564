-- ===== src/Budget/Recent.antt =====
-- crates/app/src/budget.rs: a ledger of timestamps against the history that it stands for.
use aivtuber.Common.{
  ℕ, ◌-◌, ◌≤◌, ◌<◌, ◌≡◌, refl, sym, ap, ◌∙◌, inl, inr, List, [], ◌∷◌, ◌++◌, length, leb, Bool-cases,
  if◌then◌else◌, arith,
}
use aivtuber.Common.Each.{Each, Each-push}
use aivtuber.Budget.Governor.{trim_ledger}

-- The entries of a history since `horizon`.
abbrev pub recent : ℕ → List ℕ → List ℕ
recent horizon [] = []
recent horizon (at ∷ rest) =
    let later = recent horizon rest in if leb horizon at then at ∷ later else later

abbrev pub UpTo : ℕ → List ℕ → Type 0
UpTo t ledger = Each (λ at. at ≤ t) ledger

pub UpTo-later : (t u : ℕ) (ledger : List ℕ) → t ≤ u → UpTo t ledger → UpTo u ledger
UpTo-later t u [] le h = tt
UpTo-later t u (x ∷ xs) le (first, rest) = (omega arith, UpTo-later t u xs le rest)

pub length-trim_ledger : (h : ℕ) (ledger : List ℕ) → length (trim_ledger h ledger) ≤ length ledger
unfolding trim_ledger
length-trim_ledger h [] = omega arith
length-trim_ledger h (x ∷ xs) = ground (arith, length-trim_ledger h xs)

-- Trimming twice is trimming once at the later horizon.
pub trim_ledger_twice :
    (h k : ℕ) (ledger : List ℕ)
    → h ≤ k
    → trim_ledger k (trim_ledger h ledger) ≡ trim_ledger k ledger
unfolding trim_ledger
trim_ledger_twice h k [] le = refl
trim_ledger_twice h k (x ∷ xs) le = ground (arith, trim_ledger_twice h k xs le)

recent-push :
    (h : ℕ) (ledger : List ℕ) (x : ℕ)
    → recent h (ledger ++ x ∷ []) ≡ recent h ledger ++ recent h (x ∷ [])
recent-push h [] x = refl
recent-push h (y ∷ ys) x = ground (arith, recent-push h ys x)

trim_ledger-push :
    (h : ℕ) (ledger : List ℕ) (x : ℕ)
    → h ≤ x
    → trim_ledger h (ledger ++ x ∷ []) ≡ trim_ledger h ledger ++ x ∷ []
unfolding trim_ledger
trim_ledger-push h [] x le = ground arith
trim_ledger-push h (y ∷ ys) x le = ground (arith, trim_ledger-push h ys x le)

recent-late : (h t : ℕ) (ledger : List ℕ) → t < h → UpTo t ledger → recent h ledger ≡ []
recent-late h t [] lt u = refl
recent-late h t (x ∷ xs) lt (first, rest) = ground (arith, recent-late h t xs lt rest)

trim_ledger-push_late :
    (h : ℕ) (ledger : List ℕ) (x : ℕ)
    → x < h
    → trim_ledger h ledger ≡ []
    → trim_ledger h (ledger ++ x ∷ []) ≡ []
unfolding trim_ledger
trim_ledger-push_late h [] x lt e = ground arith
trim_ledger-push_late h (y ∷ ys) x lt e = ground (arith, trim_ledger-push_late h ys x lt)

-- At time `t` the ledger stands for the history: at every later horizon what is left of it is the
-- recent part of the history.
pub record Stands (interval t : ℕ) (ledger history : List ℕ) : Type 0 where
  pub agrees :
      (now : ℕ) → t ≤ now → trim_ledger (now - interval) ledger ≡ recent (now - interval) history
  pub past : UpTo t history

module _ (interval t u : ℕ) (ledger history : List ℕ) (h : Stands interval t ledger history)
    (le : t ≤ u) where
  pub wait-Stands : Stands interval u ledger history
  wait-Stands = record {
    agrees = λ now later. h.agrees now (omega arith);
    past = UpTo-later t u history le h.past;
  }

  pub trim_ledger-Stands : Stands interval u (trim_ledger (u - interval) ledger) history
  trim_ledger-Stands = record {
    agrees = λ now later.
        trim_ledger_twice (u - interval) (now - interval) ledger (omega arith)
        ∙ h.agrees now (omega arith);
    past = UpTo-later t u history le h.past;
  }

  pub push-Stands : Stands interval u (ledger ++ u ∷ []) (history ++ u ∷ [])
  push-Stands = record {
    agrees = λ now later. elim (Bool-cases (leb (now - interval) u)) [
      | inl e ↦
          trim_ledger-push (now - interval) ledger u (ground arith)
          ∙ ap (λ l. l ++ u ∷ []) (h.agrees now (omega arith))
          ∙ sym (rw (recent-push, e) refl)
      | inr e ↦
          let none_left =
            h.agrees now (omega arith)
            ∙ recent-late (now - interval) t history (ground arith) h.past in
          trim_ledger-push_late (now - interval) ledger u (ground arith) none_left
          ∙ sym (
              recent-late (now - interval) u (history ++ u ∷ []) (ground arith) (
                Each-push (λ at. at ≤ u) history u (omega arith)
                  (UpTo-later t u history le h.past)))
    ];
    past = Each-push (λ at. at ≤ u) history u (omega arith) (UpTo-later t u history le h.past);
  }
