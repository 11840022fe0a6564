-- ===== src/Scheduler/Invariant/Cancel.antt =====
-- The safe-point cancellations of `schedule_at`: they shorten playing items and change nothing else
-- of the live collection.
use aivtuber.Common.{
  ℕ, ◌≤◌, ◌<◌, ◌≡◌, inl, inr, refl, ◌∙◌, subst, some, List, [], ◌∷◌, length, get_elem?, set,
  get_elem?-lt, get_elem?-set_self, get_elem?-set_ne, length-set, arith,
}
use aivtuber.Common.Slots.{get_elem?-set}
use native.Mathlib.Decide.{ℕ_discrete}
use aivtuber.Scheduler.Data.{ScheduledItem, playing, Scheduler, effective_end_ms}
use aivtuber.Scheduler.Advance.{put_item}
use aivtuber.Scheduler.Arbitrate.{earliest, apply_cancellations}
use aivtuber.Scheduler.Invariant.{TimelineOf, Untouched, Untouched-trans, Timeline-put_item}
use aivtuber.Scheduler.Invariant.Handoff.{HasPair, PairsPlaying}

-- The same item, cut shorter or left alone.
pub record Shortens (x y : ScheduledItem) : Type 0 where
  pub plan : y.plan ≡ x.plan
  pub status : y.status ≡ x.status
  pub ends : effective_end_ms y ≤ effective_end_ms x

pub record Cancels (P : ScheduledItem → Type 0) (l : List (ℕ × ℕ)) (s t : Scheduler) : Type 0 where
  pub timeline : TimelineOf P t
  pub untouched : Untouched s t
  pub size : length t.items ≡ length s.items
  pub slots :
      (i : ℕ) (y : ScheduledItem)
      → get_elem? t.items i ≡ some y
      → (x : ScheduledItem) × (get_elem? s.items i ≡ some x) × Shortens x y
  pub cut :
      (i b : ℕ) (y : ScheduledItem)
      → HasPair i b l
      → get_elem? t.items i ≡ some y
      → effective_end_ms y ≤ b

module _ (x : ScheduledItem) (b : ℕ) where
  abbrev cut_item : ScheduledItem
  cut_item = record x { cancel_at_ms = some (earliest x.cancel_at_ms b) }

  cut_item-Shortens : Shortens x cut_item × (effective_end_ms cut_item ≤ b)
  unfolding effective_end_ms
  cut_item-Shortens = (record { plan = refl; status = refl; ends = ground arith }, ground arith)

-- A write of a playing item keeps the pending cancellations on playing items.
PairsPlaying-set :
    (xs : List ScheduledItem) (k : ℕ) (y : ScheduledItem) (l : List (ℕ × ℕ))
    → k < length xs
    → y.status ≡ playing
    → PairsPlaying xs l
    → PairsPlaying (set xs k y) l
PairsPlaying-set xs k y [] lt p a = tt
PairsPlaying-set xs k y (e ∷ l) lt p ((x, at, q), a) = elim (ℕ_discrete k e.0) [
  | yes same ↦
      ((y, rw (← same) (get_elem?-set_self xs k y lt), p), PairsPlaying-set xs k y l lt p a)
  | no ne ↦ ((x, get_elem?-set_ne xs k e.0 y ne ∙ at, q), PairsPlaying-set xs k y l lt p a)
]

-- A property of items that a cancellation of playing work keeps.
abbrev pub Survives : (ScheduledItem → Type 0) → Type 0
Survives P = (x y : ScheduledItem) → x.status ≡ playing → Shortens x y → P x → P y

Shortens-trans : (x y z : ScheduledItem) → Shortens x y → Shortens y z → Shortens x z
Shortens-trans x y z a b = record {
  plan = b.plan ∙ a.plan;
  status = b.status ∙ a.status;
  ends = omega (arith, a.ends, b.ends);
}

Shortens-refl : (x : ScheduledItem) → Shortens x x
Shortens-refl x = record { plan = refl; status = refl; ends = omega arith }

-- One cancellation.
module _ (P : ScheduledItem → Type 0) (survives : Survives P) (s : Scheduler) (k b : ℕ)
    (x : ScheduledItem) (at : get_elem? s.items k ≡ some x) (on : x.status ≡ playing)
    (h : TimelineOf P s) where
  cut_Timeline : TimelineOf P (put_item s k (cut_item x b))
  cut_Timeline =
      let (short, _) = cut_item-Shortens x b in
      Timeline-put_item P s k x (cut_item x b) refl short.ends
        (survives x (cut_item x b) on short (h.slots k x at)) at h

  cut_slots :
      (i : ℕ) (y : ScheduledItem)
      → get_elem? (put_item s k (cut_item x b)).items i ≡ some y
      → (z : ScheduledItem) × (get_elem? s.items i ≡ some z) × Shortens z y
  unfolding put_item
  cut_slots i y g = elim (get_elem?-set s.items k i (cut_item x b) g) [
    | inl (e, same) ↦ (x, rw e at, subst (Shortens x) same (cut_item-Shortens x b).0)
    | inr (_, old) ↦ (y, old, Shortens-refl y)
  ]

  cut_Untouched : Untouched s (put_item s k (cut_item x b))
  unfolding put_item
  cut_Untouched = record { config = refl; now_ms = refl; generation = refl; history = λ b. b }

put_PairsPlaying :
    (s : Scheduler) (k b : ℕ) (x : ScheduledItem) (l : List (ℕ × ℕ))
    → get_elem? s.items k ≡ some x
    → x.status ≡ playing
    → PairsPlaying s.items l
    → PairsPlaying (put_item s k (cut_item x b)).items l
unfolding put_item
put_PairsPlaying s k b x l at on n =
    PairsPlaying-set s.items k (cut_item x b) l (get_elem?-lt s.items k at) on n

-- What was cut stays cut under the later cancellations.
cut_first :
    (s : Scheduler) (k b i : ℕ) (x z : ScheduledItem)
    → get_elem? s.items k ≡ some x
    → k ≡ i
    → get_elem? (put_item s k (cut_item x b)).items i ≡ some z
    → effective_end_ms z ≤ b
unfolding put_item
cut_first s k b i x z at e g =
    let self = get_elem?-set_self s.items k (cut_item x b) (get_elem?-lt s.items k at) in
    let same : cut_item x b ≡ z = cc (self, g, e) in
    subst (λ w. effective_end_ms w ≤ b) same (cut_item-Shortens x b).1

Cancels-cons :
    (P : ScheduledItem → Type 0) (survives : Survives P) (k b : ℕ) (l : List (ℕ × ℕ))
    (s t : Scheduler) (x : ScheduledItem)
    → get_elem? s.items k ≡ some x
    → x.status ≡ playing
    → TimelineOf P s
    → Cancels P l (put_item s k (cut_item x b)) t
    → Cancels P ((k, b) ∷ l) s t
unfolding put_item
Cancels-cons P survives k b l s t x at on h c = record {
  timeline = c.timeline;
  untouched =
      Untouched-trans s (put_item s k (cut_item x b)) t (cut_Untouched P survives s k b x at on h)
        c.untouched;
  size = c.size ∙ length-set s.items k (cut_item x b);
  slots = λ i y g.
      let (z, gz, short) = c.slots i y g in
      let (w, gw, first) = cut_slots P survives s k b x at on h i z gz in
      (w, gw, Shortens-trans w z y first short);
  cut = λ i d y m g. elim m [
    | inl (e, same) ↦
        let (z, gz, short) = c.slots i y g in
        let first = cut_first s k b i x z at e gz in omega (arith, first, same, short.ends)
    | inr later ↦ c.cut i d y later g
  ];
}

-- All pending cancellations are applied, without a panic.
pub apply_cancellations-Cancels :
    (P : ScheduledItem → Type 0) (l : List (ℕ × ℕ)) (s : Scheduler)
    → Survives P
    → PairsPlaying s.items l
    → TimelineOf P s
    → (t : Scheduler) × (apply_cancellations l s ≡ some t) × Cancels P l s t
unfolding apply_cancellations
apply_cancellations-Cancels P [] s survives n h = (
  s,
  refl,
  record {
    timeline = h;
    untouched = record { config = refl; now_ms = refl; generation = refl; history = λ b. b };
    size = refl;
    slots = λ i y g. (y, g, Shortens-refl y);
    cut = λ i b y m g. absurd m;
  },
)
apply_cancellations-Cancels P ((k, b) ∷ l) s survives ((x, at, on), n) h =
    let u = put_item s k (cut_item x b) in
    let (t, e, c) =
      apply_cancellations-Cancels P l u survives (put_PairsPlaying s k b x l at on n)
        (cut_Timeline P survives s k b x at on h) in
    (t, rw (at, apply_cancellations) e, Cancels-cons P survives k b l s t x at on h c)
