-- ===== src/Scheduler/Current.antt =====
-- crates/scheduler/src/lib.rs, `stop_current`: what it keeps.
use aivtuber.Common.{
  ℕ, suc, ◌+◌, ◌≡◌, inl, inr, sym, ap, ◌∙◌, subst, some, List, [], ◌∷◌, get_elem?, max,
  Option-cases, Bool-cases, arith, nat_eq, string_eq,
}
use mathlib.Core.Option.{some-injective}
use aivtuber.Scheduler.Data.{ScheduledItem, Scheduler, is_playing}
use aivtuber.Scheduler.Advance.{advance_to}
use aivtuber.Scheduler.Stop.{stop_playing, position_playing, stop_current}
use aivtuber.Scheduler.Invariant.{TimelineOf, LiveItem, IsConsistent, HistoryBounded}
use aivtuber.Scheduler.Invariant.Advance.{advance_to-Advanced}
use aivtuber.Scheduler.Stops.{stop_playing-Untouched, Timeline-stop_playing}

-- The position that `stop_current` finds is the slot of the item.
position_playing-slot :
    (n : ℕ) (xs : List ScheduledItem) (k : ℕ) (x : ScheduledItem)
    → position_playing n xs ≡ some (k, x)
    → (j : ℕ) × (k ≡ n + j) × (get_elem? xs j ≡ some x)
unfolding position_playing
position_playing-slot n [] k x h = cc
position_playing-slot n (y ∷ xs) k x h = elim (Bool-cases (is_playing y.status)) [
  | inl t ↦
      let same = some-injective (n, y) (k, x) (rw t at h) in
      (
        0,
        omega (arith, ap (λ (e : ℕ × ScheduledItem). e.0) same),
        ap (λ (e : ℕ × ScheduledItem). some e.1) same,
      )
  | inr f ↦
      let (j, e, g) = position_playing-slot (suc n) xs k x (rw f at h) in
      (suc j, omega (arith, e), g)
]

module _ (s : Scheduler) (at_ms : ℕ) (h : IsConsistent s) where
  -- What `stop_current` keeps.
  pub record CurrentStopped (t : Scheduler) : Type 0 where
    pub consistent : IsConsistent t
    pub now_ms : t.now_ms ≡ max at_ms s.now_ms
    pub history : HistoryBounded s → HistoryBounded t

  stopped_at :
      (k : ℕ) (x : ScheduledItem)
      → get_elem? (advance_to s at_ms).items k ≡ some x
      → CurrentStopped (stop_playing (advance_to s at_ms) k x at_ms)
  stopped_at k x g =
      let t = advance_to s at_ms in
      let a = advance_to-Advanced s at_ms h in
      let same = stop_playing-Untouched t k at_ms x g in
      record {
        consistent =
            subst
              (λ (e : record { now : ℕ; generation : ℕ }).
                TimelineOf (LiveItem e.now e.generation) (stop_playing t k x at_ms))
              (λ i. record { now = sym same.now_ms i; generation = sym same.generation i })
              (Timeline-stop_playing t k at_ms x g (LiveItem t.now_ms t.generation) a.consistent);
        now_ms = same.now_ms ∙ a.now_ms;
        history = λ b. same.history (a.history b);
      }

  pub stop_current-CurrentStopped : CurrentStopped (stop_current s at_ms).0
  unfolding stop_current
  stop_current-CurrentStopped =
      let t = advance_to s at_ms in
      let a = advance_to-Advanced s at_ms h in
      elim (Option-cases (position_playing 0 t.items)) [
        | inl e ↦
            rw (e, stop_current)
              (record { consistent = a.consistent; now_ms = a.now_ms; history = a.history })
        | inr ((k, x), e) ↦
            let (j, p, g) = position_playing-slot 0 t.items k x e in
            let g' : get_elem? t.items k ≡ some x =
              subst (λ i. get_elem? t.items i ≡ some x) (omega arith) g in
            rw (e, stop_current) (stopped_at k x g')
      ]
