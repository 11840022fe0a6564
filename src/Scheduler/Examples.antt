-- ===== src/Scheduler/Examples.antt =====
-- crates/scheduler/src/lib.rs: two plans of its unit tests, the states that they lead to, and the
-- theorems of the scheduler there.
use aivtuber.Common.{
  ℕ, ◌+◌, ◌≤◌, ◌<◌, any, ◌==◌, ◌≡◌, refl, String, Bool, true, false, Option, none, some, [], ◌∷◌,
  get_elem?, arith, nat_eq, string_eq, ◌↔◌,
}
use aivtuber.Common.Word.{saturating_add}
use aivtuber.Common.Map.{lookup, insert, remove, retain}
use aivtuber.Scheduler.Data
use aivtuber.Scheduler.Data.{
  Priority, conversation, high_priority_interaction, Channels, PlannedPerformance, ScheduledItem,
  Scheduler, SchedulerConfig, ring, default_config, new_scheduler, queued, playing, end_at_ms,
  effective_end_ms,
}
use aivtuber.Scheduler.Advance
use aivtuber.Scheduler.Arbitrate.{Result, ok, err}
use aivtuber.Scheduler.Schedule
use aivtuber.Scheduler.Schedule.{schedule_at}
use aivtuber.Scheduler.Stop
use aivtuber.Scheduler.Stop.{stop_all, is_generation_live, live_item_by_generation}
use aivtuber.Scheduler.Invariant.Advance.{Advanced, advance_to-Advanced}
use aivtuber.Scheduler.Invariant.Indices.{Has}
use aivtuber.Scheduler.Reachable.{
  IsSound, Reach, here, next, request, Reach-IsSound, live_item_by_generation_iff,
}
use aivtuber.Scheduler.Requests.{
  IsReady, at_request, schedule_at_returns, schedule_at_rejected, schedule_at_accepted,
}
use aivtuber.Scheduler.Stops.{stop_all_stops}
use aivtuber.Scheduler.Rejections.{duplicate_rejected_iff, priority_rejected}
use aivtuber.Scheduler.Boundaries.{
  StrictlyAscends, IsBoundary, IsEligible, normalize_points, next_safe_boundary_lem,
}
use aivtuber.Common.Count.{count_if}

-- Everything that a request computes with.
program : Unit {0}
unfolding schedule_at new_scheduler stop_all Stop.live_item_by_generation Advance.advance_to
    Schedule.decide_at Data.normalize_interrupt_points Data.plans_conflict Data.channels_meet
    Data.intervals_overlap Data.next_safe_boundary Data.rank end_at_ms effective_end_ms
    saturating_add lookup insert remove retain
program = tt

abbrev no_spacing : SchedulerConfig
no_spacing = record default_config { min_reaction_spacing_ms = 0 }

abbrev audio : Channels
audio = record { audio = true; face = false; body = false; gaze = false; overlay = false }

abbrev current : PlannedPerformance
current = record {
  event_id = "e1";
  asset_id = "asset.a";
  priority = conversation;
  interruptible = true;
  interrupt_points_ms = 0 ∷ 400 ∷ 800 ∷ 1000 ∷ [];
  start_at_ms = 0;
  duration_ms = 1000;
  generation = 0;
  exclusive = false;
  channels = audio;
}

abbrev incoming : PlannedPerformance
incoming = record {
  event_id = "e2";
  asset_id = "asset.b";
  priority = high_priority_interaction;
  interruptible = true;
  interrupt_points_ms = 0 ∷ 300 ∷ [];
  start_at_ms = 250;
  duration_ms = 300;
  generation = 0;
  exclusive = false;
  channels = audio;
}

abbrev state_of : Option (Scheduler × Result) → Scheduler
state_of none = new_scheduler no_spacing
state_of (some (s, r)) = s

abbrev result_of : Option (Scheduler × Result) → Result
result_of none = err Data.cooldown
result_of (some (s, r)) = r

abbrev start : Scheduler
start = new_scheduler no_spacing

abbrev one : Scheduler
one = state_of (schedule_at start 0 current)

one_lem : schedule_at start 0 current ≡ some (one, result_of (schedule_at start 0 current))
unfolding program
one_lem = refl

-- The incoming plan waits for the safe point at 400.
preempts :
    result_of (schedule_at one 250 incoming)
    ≡ ok (record incoming { start_at_ms = 400; generation = 2 })
unfolding program
preempts = refl

one-Reach : Reach start one
unfolding program
one-Reach = next here (
    request start one 0 current (result_of (schedule_at start 0 current)) (omega arith)
      (omega arith) (omega arith) one_lem)

Reach-IsSound_example : IsSound one
Reach-IsSound_example = Reach-IsSound no_spacing one-Reach

one_generation : one.generation ≡ 1
unfolding program
one_generation = refl

one-IsReady : IsReady one
one-IsReady =
    let sound = Reach-IsSound no_spacing one-Reach in
    record {
      consistent = sound.consistent;
      clock = sound.clock;
      room = omega (arith, one_generation);
    }

schedule_at_returns_example :
    (t : Scheduler) × (r : Result) × (schedule_at one 250 incoming ≡ some (t, r))
schedule_at_returns_example =
    schedule_at_returns one 250 incoming one-IsReady (omega arith) (omega arith)

-- The same event again.
abbrev again : Option (Scheduler × Result)
again = schedule_at one 250 current

again_lem : again ≡ some (state_of again, err Data.duplicate_event)
unfolding program
again_lem = refl

schedule_at_rejected_example :
    state_of again ≡ record (at_request one 250) { last_rejection = some Data.duplicate_event }
schedule_at_rejected_example =
    schedule_at_rejected one 250 current one-IsReady (omega arith) (omega arith) again_lem

abbrev placed : PlannedPerformance
placed = record incoming { start_at_ms = 400; generation = 2 }

abbrev two : Scheduler
two = state_of (schedule_at one 250 incoming)

two_lem : schedule_at one 250 incoming ≡ some (two, ok placed)
unfolding program
two_lem = refl

schedule_at_accepted_example :
    (250 ≤ 400)
    × (250 ≤ 400)
    × (one.now_ms ≤ 400)
    × (2 ≡ one.generation + 1)
    × (placed.event_id ≡ incoming.event_id)
    × (placed.asset_id ≡ incoming.asset_id)
    × ((i : ℕ) × (x : ScheduledItem) × (get_elem? two.items i ≡ some x)
        × (x.plan ≡ placed)
        × (x.cancel_at_ms ≡ none))
    × (lookup "asset.b" two.cooldowns
        ≡ some (saturating_add (end_at_ms placed) one.config.min_reaction_spacing_ms))
schedule_at_accepted_example =
    schedule_at_accepted one 250 incoming one-IsReady (omega arith) (omega arith) two_lem

advance_to-Advanced_example : Advanced one 500 (Advance.advance_to one 500)
advance_to-Advanced_example = advance_to-Advanced one 500 one-IsReady.consistent

stop_all_stops_example :
    ((stop_all one 500).0.items ≡ [])
    × ((g : ℕ) → is_generation_live (stop_all one 500).0 g ≡ false)
    × ((test : PlannedPerformance → Bool)
        → count_if test (stop_all one 500).1
          ≡ count_if (λ (x : ScheduledItem). test x.plan) (Advance.advance_to one 500).items)
    × ((g : ℕ) → lookup g (stop_all one 500).0.live_by_generation ≡ none)
    × ((id : String) → lookup id (stop_all one 500).0.live_by_event ≡ none)
stop_all_stops_example = stop_all_stops one 500 one-IsReady.consistent

abbrev live : ScheduledItem
live = record { plan = record current { generation = 1 }; status = playing; cancel_at_ms = none }

live_at : get_elem? (at_request one 250).items 0 ≡ some live
unfolding program
live_at = refl

duplicate_rejected_iff_example :
    ((t : Scheduler) × (schedule_at one 250 current ≡ some (t, err Data.duplicate_event)))
    ↔ ((i : ℕ) × (lookup "e1" (at_request one 250).live_by_event ≡ some i))
duplicate_rejected_iff_example = duplicate_rejected_iff one 250 current one-IsReady.consistent

abbrev humble : PlannedPerformance
humble = record incoming { priority = Data.commentary }

humble_new :
    any (λ (item : ScheduledItem). item.plan.event_id == humble.event_id) (at_request one 250).items
    ≡ false
unfolding program
humble_new = refl

humble_cool : Data.unwrap_or (lookup humble.asset_id (at_request one 250).cooldowns) 0 ≤ 250
unfolding program
humble_cool = omega arith

humble_clash : Data.plans_conflict live.plan humble ≡ true
unfolding program
humble_clash = refl

humble_below : Data.rank live.plan.priority < Data.rank humble.priority
unfolding program
humble_below = omega arith

priority_rejected_example :
    schedule_at one 250 humble
    ≡ some (record (at_request one 250) { last_rejection = some Data.priority }, err Data.priority)
priority_rejected_example =
    priority_rejected one 250 humble 0 live humble_new humble_cool live_at refl humble_clash
      humble_below

live_item_by_generation_iff_example :
    (live_item_by_generation one 1 ≡ some live)
    ↔ ((i : ℕ) × (get_elem? one.items i ≡ some live) × (live.plan.generation ≡ 1))
live_item_by_generation_iff_example = live_item_by_generation_iff one one-IsReady.consistent 1 live

-- Interrupt points out of order, repeated and past the duration.
abbrev untidy : PlannedPerformance
untidy = record current { interrupt_points_ms = 800 ∷ 400 ∷ 1200 ∷ 400 ∷ [] }

tidied : (Data.normalize_interrupt_points untidy).interrupt_points_ms ≡ 400 ∷ 800 ∷ []
unfolding program
tidied = refl

normalize_points_example :
    StrictlyAscends (Data.normalize_interrupt_points untidy).interrupt_points_ms
    × ((n : ℕ)
        → Has n (Data.normalize_interrupt_points untidy).interrupt_points_ms
          ↔ (Has n untidy.interrupt_points_ms × (n ≤ 1000)))
normalize_points_example = normalize_points untidy

next_safe_boundary_lem_example :
    IsBoundary current 250 current.interrupt_points_ms (Data.next_safe_boundary current 250)
    × (StrictlyAscends current.interrupt_points_ms
        → (n : ℕ) → Has n current.interrupt_points_ms
        → IsEligible current 250 n
        → Data.next_safe_boundary current 250 ≤ saturating_add 0 n)
next_safe_boundary_lem_example = next_safe_boundary_lem current 250
