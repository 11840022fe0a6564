-- ===== src/Scheduler/Data.antt =====
-- crates/scheduler/src/lib.rs: the types of the scheduler, and the functions of one plan.
use aivtuber.Common.{
  ℕ, ◌-◌, min, String, Bool, true, false, ◌&&◌, ◌||◌, Option, none, some, List, [], ◌∷◌, ltb, leb,
  eqb, if◌then◌else◌,
}
use aivtuber.Common.Word.{saturating_add, u64_max}

pub data Priority : Type 0 where
  background commentary conversation strong_reaction high_priority_interaction operator : Priority

-- `Priority::rank`: a lower rank preempts a higher one.
unfoldable pub rank : Priority → ℕ
rank background = 5
rank commentary = 4
rank conversation = 3
rank strong_reaction = 2
rank high_priority_interaction = 1
rank operator = 0

abbrev pub is_operator : Priority → Bool
is_operator operator = true
is_operator _ = false

-- crates/domain/src/event.rs: the kinds of event.
pub data EventKind : Type 0 where
  chat_message chat_donation game_event stream_event speech_input : EventKind
  timer_tick system_health operator_command : EventKind

unfoldable pub priority_for_event : EventKind → Priority
priority_for_event operator_command = operator
priority_for_event chat_donation = high_priority_interaction
priority_for_event game_event = strong_reaction
priority_for_event chat_message = conversation
priority_for_event speech_input = conversation
priority_for_event stream_event = commentary
priority_for_event timer_tick = background
priority_for_event system_health = background

-- `BTreeSet<BlendChannel>`: a set of the five channels, by its members.
pub record Channels : Type 0 where
  pub audio : Bool
  pub face : Bool
  pub body : Bool
  pub gaze : Bool
  pub overlay : Bool

-- `BTreeSet::is_disjoint`, negated.
unfoldable pub channels_meet : Channels → Channels → Bool
channels_meet a b =
    (a.audio && b.audio)
    || (a.face && b.face)
    || (a.body && b.body)
    || (a.gaze && b.gaze)
    || (a.overlay && b.overlay)

pub record PlannedPerformance : Type 0 where
  pub event_id : String
  pub asset_id : String
  pub priority : Priority
  pub interruptible : Bool
  pub interrupt_points_ms : List ℕ
  pub start_at_ms : ℕ
  pub duration_ms : ℕ
  pub generation : ℕ
  pub exclusive : Bool
  pub channels : Channels

unfoldable pub end_at_ms : PlannedPerformance → ℕ
end_at_ms p = saturating_add p.start_at_ms p.duration_ms

pub data Status : Type 0 where
  queued playing completed cancelled : Status

pub record ScheduledItem : Type 0 where
  pub plan : PlannedPerformance
  pub status : Status
  pub cancel_at_ms : Option ℕ

abbrev pub unwrap_or : Option ℕ → ℕ → ℕ
unwrap_or none d = d
unwrap_or (some v) d = v

unfoldable pub effective_end_ms : ScheduledItem → ℕ
effective_end_ms item =
    min (unwrap_or item.cancel_at_ms (end_at_ms item.plan)) (end_at_ms item.plan)

abbrev pub is_queued : Status → Bool
is_queued queued = true
is_queued _ = false

abbrev pub is_playing : Status → Bool
is_playing playing = true
is_playing _ = false

unfoldable pub occupies_timeline : ScheduledItem → Bool
occupies_timeline item = is_queued item.status || is_playing item.status

pub data Rejection : Type 0 where
  cooldown priority duplicate_event : Rejection

pub data HistoryPolicy : Type 0 where
  ring retain_all : HistoryPolicy

pub record HistoryEntry : Type 0 where
  pub terminal_at_ms : ℕ
  pub scheduled_at_ms : ℕ
  pub item : ScheduledItem

pub record SchedulerConfig : Type 0 where
  pub min_reaction_spacing_ms : ℕ
  pub history_capacity : ℕ
  pub history_policy : HistoryPolicy

abbrev pub default_config : SchedulerConfig
default_config = record {
  min_reaction_spacing_ms = 1500;
  history_capacity = 1024;
  history_policy = ring;
}

abbrev pub replay_config : SchedulerConfig
replay_config = record default_config { history_capacity = u64_max; history_policy = retain_all }

pub record Scheduler : Type 0 where
  pub items : List ScheduledItem
  pub live_by_generation : List (ℕ × ℕ)
  pub live_by_event : List (String × ℕ)
  pub history : List HistoryEntry
  pub cooldowns : List (String × ℕ)
  pub cooldowns_high_water : ℕ
  pub cooldowns_expired : ℕ
  pub generation : ℕ
  pub config : SchedulerConfig
  pub last_rejection : Option Rejection
  pub now_ms : ℕ
  pub last_terminal_at : Option ℕ
  pub terminal_evicted : ℕ

-- `Scheduler::new`
unfoldable pub new_scheduler : SchedulerConfig → Scheduler
new_scheduler config = record {
  items = [];
  live_by_generation = [];
  live_by_event = [];
  history = [];
  cooldowns = [];
  cooldowns_high_water = 0;
  cooldowns_expired = 0;
  generation = 0;
  config = config;
  last_rejection = none;
  now_ms = 0;
  last_terminal_at = none;
  terminal_evicted = 0;
}

unfoldable pub plans_conflict : PlannedPerformance → PlannedPerformance → Bool
plans_conflict a b = a.exclusive || b.exclusive || channels_meet a.channels b.channels

unfoldable pub intervals_overlap : ℕ → ℕ → ℕ → ℕ → Bool
intervals_overlap a_start a_end b_start b_end = ltb a_start b_end && ltb b_start a_end

-- The chain of `next_safe_boundary` over the interrupt points: filter by `elapsed`, place on the
-- timeline, and find the first boundary that lies in the remaining performance.
unfoldable pub find_boundary : PlannedPerformance → ℕ → ℕ → List ℕ → ℕ
find_boundary p request elapsed [] = end_at_ms p
find_boundary p request elapsed (offset ∷ rest) =
    let boundary = saturating_add p.start_at_ms offset in
    let later = find_boundary p request elapsed rest in
    if leb elapsed offset && (leb request boundary && ltb boundary (end_at_ms p))
    then boundary
    else later

unfoldable pub next_safe_boundary : PlannedPerformance → ℕ → ℕ
unfolding find_boundary
next_safe_boundary p request =
    find_boundary p request (request - p.start_at_ms) p.interrupt_points_ms

-- `retain(|offset| *offset <= duration)`
unfoldable pub retain_points : ℕ → List ℕ → List ℕ
retain_points d [] = []
retain_points d (x ∷ xs) = if leb x d then x ∷ retain_points d xs else retain_points d xs

-- `sort_unstable`
unfoldable pub insert_sorted : ℕ → List ℕ → List ℕ
insert_sorted x [] = x ∷ []
insert_sorted x (y ∷ ys) = if leb x y then x ∷ y ∷ ys else y ∷ insert_sorted x ys

unfoldable pub sort : List ℕ → List ℕ
unfolding insert_sorted
sort [] = []
sort (x ∷ xs) = insert_sorted x (sort xs)

-- `dedup`: drops each value that equals the one before it.
unfoldable pub dedup_after : ℕ → List ℕ → List ℕ
dedup_after before [] = []
dedup_after before (x ∷ xs) = let rest = dedup_after x xs in if eqb before x then rest else x ∷ rest

unfoldable pub dedup : List ℕ → List ℕ
unfolding dedup_after
dedup [] = []
dedup (x ∷ xs) = x ∷ dedup_after x xs

unfoldable pub normalize_interrupt_points : PlannedPerformance → PlannedPerformance
unfolding retain_points sort dedup
normalize_interrupt_points p = record p {
  interrupt_points_ms = dedup (sort (retain_points p.duration_ms p.interrupt_points_ms));
}
