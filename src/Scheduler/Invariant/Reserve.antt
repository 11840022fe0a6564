-- ===== src/Scheduler/Invariant/Reserve.antt =====
-- `reserve`: a plan that no playing item hinders finds its start behind the queue, and enters.
use aivtuber.Common.{
  ℕ, zero, suc, ◌+◌, ◌≤◌, ◌<◌, ◌≡◌, ◌≢◌, inl, inr, refl, sym, ap, ◌∙◌, subst, false, none, some,
  List, [], ◌∷◌, length, get_elem?, any, Bool-cases, Option-cases, String, get_elem?-push_last,
  beq_self, arith, nat_eq, string_eq, ◌==◌, ne_of_beq,
}
use aivtuber.Common.Word.{u64_max, saturating_add, saturating_add-le_max, saturating_add_exact}
use aivtuber.Common.Map.{lookup, lookup-insert}
use aivtuber.Common.Slots.{AllAt}
use aivtuber.Scheduler.Data.{
  PlannedPerformance, ScheduledItem, Scheduler, SchedulerConfig, is_operator, end_at_ms,
}
use aivtuber.Scheduler.Arbitrate.{ok, Handoff, spaced_start}
use aivtuber.Scheduler.Schedule.{commit, reserve}
use aivtuber.Scheduler.Invariant.{TimelineOf, LiveItem, IsConsistent, HistoryBounded, event_of}
use aivtuber.Scheduler.Invariant.Settle.{settle_all}
use aivtuber.Scheduler.Invariant.Cancel.{Survives}
use aivtuber.Scheduler.Invariant.Commit.{Admits, committed, commit-IsConsistent}

-- The accepted request: a later start of the plan that arrived, with the next generation.
pub record Accepted (s : Scheduler) (arrived : PlannedPerformance) (t : Scheduler)
    (p : PlannedPerformance) : Type 0 where
  pub consistent : IsConsistent t
  pub plan : p ≡ record arrived { start_at_ms = p.start_at_ms; generation = p.generation }
  pub start : arrived.start_at_ms ≤ p.start_at_ms
  pub generation : p.generation ≡ s.generation + 1
  pub counter : t.generation ≡ s.generation + 1
  pub now_ms : t.now_ms ≡ s.now_ms
  pub config : t.config ≡ s.config
  pub history : HistoryBounded s → HistoryBounded t
  pub slot :
      (i : ℕ) × (x : ScheduledItem) × (get_elem? t.items i ≡ some x)
      × (x.plan ≡ p)
      × (x.cancel_at_ms ≡ none)
  pub cooldown :
      lookup p.asset_id t.cooldowns
      ≡ some (saturating_add (end_at_ms p) s.config.min_reaction_spacing_ms)

pub LiveItem-Survives : (now generation : ℕ) → Survives (LiveItem now generation)
LiveItem-Survives now generation x y on short (live, counted) = rw short.plan (ground arith)

-- A property of items that follows from another.
pub Timeline_weaken :
    (P Q : ScheduledItem → Type 0) (s : Scheduler)
    → AllAt Q s.items
    → TimelineOf P s
    → TimelineOf Q s
Timeline_weaken P Q s all h = record {
  by_generation = h.by_generation;
  by_event = h.by_event;
  slots = all;
  compatible = h.compatible;
}

pub spaced_start_bounds :
    (s : Scheduler) (p : PlannedPerformance) (h : Handoff)
    → h.candidate_start ≤ u64_max
    → (h.candidate_start ≤ spaced_start s p h) × (spaced_start s p h ≤ u64_max)
unfolding spaced_start
spaced_start_bounds s p h w =
    let spacing = s.config.min_reaction_spacing_ms in
    elim (Bool-cases (is_operator p.priority)) [
      | inl o ↦ rw (spaced_start, o) (omega arith, w)
      | inr o ↦ elim (Option-cases h.handoff_terminal) [
        | inr (t, e) ↦
            let m = saturating_add-le_max t spacing in
            rw (spaced_start, o, e) (omega arith, omega arith)
        | inl e ↦ elim (Option-cases s.last_terminal_at) [
          | inr (t, d) ↦
              let m = saturating_add-le_max t spacing in
              rw (spaced_start, o, e, d) (omega arith, omega arith)
          | inl d ↦ rw (spaced_start, o, e, d) (omega arith, w)
        ]
      ]
    ]

fresh_tail :
    (id : String) (y : ScheduledItem) (xs : List ScheduledItem)
    → (y.plan.event_id == id) ≡ false
    → any (λ (item : ScheduledItem). item.plan.event_id == id) (y ∷ xs) ≡ false
    → (i : ℕ) (x : ScheduledItem) → get_elem? (y ∷ xs) i ≡ some x
    → (any (λ (item : ScheduledItem). item.plan.event_id == id) xs ≡ false
        → (j : ℕ) (z : ScheduledItem) → get_elem? xs j ≡ some z
        → event_of z ≢ id)
    → event_of x ≢ id
fresh_tail id y xs f h zero x g rest =
    let same : y ≡ x = cc g in
    subst (λ (z : ScheduledItem). event_of z ≢ id) same (ne_of_beq (event_of y) id f)
fresh_tail id y xs f h (suc i) x g rest = rest (rw f at h) i x g

-- An event that `any` does not find is another event.
pub fresh_event :
    (event_id : String) (xs : List ScheduledItem)
    → any (λ (item : ScheduledItem). item.plan.event_id == event_id) xs ≡ false
    → AllAt (λ x. event_of x ≢ event_id) xs
fresh_event id [] h i x g = cc
fresh_event id (y ∷ xs) h i x g = elim (Bool-cases (y.plan.event_id == id)) [
  | inl t ↦ cc (t, h)
  | inr f ↦ fresh_tail id y xs f h i x g (fresh_event id xs)
]

-- What `reserve` does with a plan that no playing item hinders.
pub reserve-Accepted :
    (s : Scheduler) (request : ℕ) (p : PlannedPerformance)
    → s.generation < u64_max
    → p.start_at_ms ≤ u64_max
    → TimelineOf (Admits s.now_ms s.generation p) s
    → (t : Scheduler) × (q : PlannedPerformance) × (reserve s request p ≡ some (t, ok q))
      × Accepted s p t q
unfolding reserve commit
reserve-Accepted s request p room w h =
    let done = settle_all (Admits s.now_ms s.generation p) request s p w h in
    let u = done.after in
    let q = done.plan in
    let same = done.walked.untouched in
    let admitted =
      subst (λ (e : record { now : ℕ; generation : ℕ }). TimelineOf (Admits e.now e.generation p) u)
        (λ i. record { now = sym same.now_ms i; generation = sym same.generation i })
        done.walked.timeline in
    let next =
      saturating_add_exact u.generation 1 (omega (arith, room, same.generation))
      ∙ ap (λ (n : ℕ). n + 1) same.generation in
    let generation = saturating_add u.generation 1 in
    let final = end_at_ms (record q { generation = generation }) in
    (
      (commit u q).0,
      (commit u q).1,
      rw (done.returns, reserve),
      record {
        consistent =
            commit-IsConsistent u p q done.walked.later (rw same.generation room) admitted
              done.free;
        plan =
            ap (λ (z : PlannedPerformance). record z { generation = generation })
              done.walked.later.same;
        start = done.walked.later.start;
        generation = next;
        counter = next;
        now_ms = same.now_ms;
        config = same.config;
        history = same.history;
        slot = (
          length u.items,
          committed u q,
          get_elem?-push_last u.items (committed u q),
          refl,
          refl,
        );
        cooldown =
            rw
              (
                lookup-insert q.asset_id q.asset_id
                    (saturating_add final u.config.min_reaction_spacing_ms) u.cooldowns,
                beq_self q.asset_id,
              )
              (ap (λ (c : SchedulerConfig). some (saturating_add final c.min_reaction_spacing_ms))
                same.config);
      },
    )
