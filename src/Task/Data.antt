-- ===== src/Task/Data.antt =====
-- crates/domain/src/task.rs: the types of an agent task, its limits and the checks on texts.
use Prim.Native.String
use Prim.Native.Char.{code}
use aivtuber.Common.{
  ℕ, ◌*◌, String, Bool, true, false, ◌&&◌, ◌||◌, Option, none, some, List, ltb, leb, eqb,
  if◌then◌else◌,
}

pub data TaskStepState : Type 0 where
  pending executing executed : TaskStepState

pub record TaskStep : Type 0 where
  pub index : ℕ
  pub description : String
  pub state : TaskStepState

pub data PendingCommitmentKind : Type 0 where
  approval dependency : PendingCommitmentKind

pub record PendingCommitment : Type 0 where
  pub kind : PendingCommitmentKind
  pub summary : String
  pub expires_at_ms : ℕ

pub data TaskVerificationOutcome : Type 0 where
  verified failed not_verified cancelled stale : TaskVerificationOutcome

pub record VerificationResult : Type 0 where
  pub outcome : TaskVerificationOutcome
  pub reason : Option String

pub data TaskOutcome : Type 0 where
  completed : TaskOutcome
  failed : String → TaskOutcome
  cancelled : String → TaskOutcome
  not_verified : String → TaskOutcome
  expired : TaskOutcome

pub data TaskState : Type 0 where
  accepted planning ready : TaskState
  waiting : PendingCommitment → TaskState
  executing : ℕ → ℕ → TaskState
  verifying : ℕ → TaskState
  completed failed cancelled not_verified expired : TaskState

pub data TaskStateKind : Type 0 where
  accepted planning ready waiting_approval waiting_dependency executing verifying : TaskStateKind
  completed failed cancelled not_verified expired : TaskStateKind

waiting_kind : PendingCommitmentKind → TaskStateKind
waiting_kind approval = TaskStateKind.waiting_approval
waiting_kind dependency = TaskStateKind.waiting_dependency

-- `TaskState::kind`
unfoldable pub kind : TaskState → TaskStateKind
unfolding waiting_kind
kind TaskState.accepted = TaskStateKind.accepted
kind TaskState.planning = TaskStateKind.planning
kind TaskState.ready = TaskStateKind.ready
kind (TaskState.waiting c) = waiting_kind c.kind
kind (TaskState.executing i g) = TaskStateKind.executing
kind (TaskState.verifying g) = TaskStateKind.verifying
kind TaskState.completed = TaskStateKind.completed
kind TaskState.failed = TaskStateKind.failed
kind TaskState.cancelled = TaskStateKind.cancelled
kind TaskState.not_verified = TaskStateKind.not_verified
kind TaskState.expired = TaskStateKind.expired

-- `TaskStateKind::is_terminal`
unfoldable pub is_terminal_kind : TaskStateKind → Bool
is_terminal_kind TaskStateKind.completed = true
is_terminal_kind TaskStateKind.failed = true
is_terminal_kind TaskStateKind.cancelled = true
is_terminal_kind TaskStateKind.not_verified = true
is_terminal_kind TaskStateKind.expired = true
is_terminal_kind _ = false

pub data TaskTransitionReason : Type 0 where
  planning_started plan_ready approval_pending dependency_pending : TaskTransitionReason
  commitment_satisfied step_started step_finished retry_scheduled : TaskTransitionReason
  replan_started verification_passed verification_failed : TaskTransitionReason
  verification_not_proven verification_cancelled verification_stale : TaskTransitionReason
  cancelled task_expired commitment_expired : TaskTransitionReason

pub record TaskTransition : Type 0 where
  pub task_id : String
  pub from : TaskStateKind
  pub to : TaskStateKind
  pub reason : TaskTransitionReason
  pub at_ms : ℕ
  pub generation : ℕ
  pub retries : ℕ
  pub replans : ℕ

-- crates/domain/src/interfaces.rs
pub data ToolVerificationOutcome : Type 0 where
  verified failed not_proven cancelled stale : ToolVerificationOutcome

-- `R` is the type of tool results, which a task stores and never opens.
pub record TaskObservation (R : Type 0) : Type 0 where
  pub step_index : ℕ
  pub generation : ℕ
  pub result : R
  pub verification : ToolVerificationOutcome

pub record TaskLimits : Type 0 where
  pub max_steps : ℕ
  pub max_observations : ℕ
  pub max_retries : ℕ
  pub max_replans : ℕ
  pub max_lifetime_ms : ℕ
  pub max_pending_ttl_ms : ℕ

-- `TaskLimits::default`
abbrev pub default_limits : TaskLimits
default_limits = record {
  max_steps = 16;
  max_observations = 8;
  max_retries = 2;
  max_replans = 2;
  max_lifetime_ms = 15 * 60 * 1000;
  max_pending_ttl_ms = 5 * 60 * 1000;
}

abbrev pub max_task_id_bytes : ℕ
max_task_id_bytes = 128

abbrev pub max_task_request_bytes : ℕ
max_task_request_bytes = 4 * 1024

abbrev pub max_task_step_bytes : ℕ
max_task_step_bytes = 1024

abbrev pub max_task_reason_bytes : ℕ
max_task_reason_bytes = 1024

abbrev pub max_task_steps_hard : ℕ
max_task_steps_hard = 64

abbrev pub max_task_observations_hard : ℕ
max_task_observations_hard = 64

abbrev pub max_task_retries_hard : ℕ
max_task_retries_hard = 16

abbrev pub max_task_replans_hard : ℕ
max_task_replans_hard = 16

abbrev pub max_task_lifetime_ms_hard : ℕ
max_task_lifetime_ms_hard = 24 * 60 * 60 * 1000

abbrev pub max_task_pending_ttl_ms_hard : ℕ
max_task_pending_ttl_ms_hard = 60 * 60 * 1000

pub record AgentTask (R : Type 0) : Type 0 where
  pub id : String
  pub requested_outcome : String
  pub state : TaskState
  pub steps : List TaskStep
  pub observations : List (TaskObservation R)
  pub limits : TaskLimits
  pub created_at_ms : ℕ
  pub updated_at_ms : ℕ
  pub expires_at_ms : ℕ
  pub generation : ℕ
  pub retries : ℕ
  pub replans : ℕ
  pub outcome : Option TaskOutcome

pub data TaskError : Type 0 where
  invalid_configuration : String → TaskError
  invalid_text : String → ℕ → TaskError
  invalid_transition : TaskStateKind → String → TaskError
  plan_has_no_steps step_limit_exceeded : TaskError
  step_out_of_range step_not_pending : ℕ → TaskError
  retry_limit_exceeded replan_limit_exceeded invalid_pending_ttl : TaskError
  stale_generation : ℕ → ℕ → TaskError
  generation_exhausted : TaskError
  non_monotonic_time : ℕ → ℕ → TaskError

pub data Result {ℓ} (A : Type ℓ) : Type ℓ where
  ok : A → Result A
  err : TaskError → Result A

-- The code points that `str::trim` removes: Unicode White_Space.
unfoldable pub is_white_space : ℕ → Bool
is_white_space c =
    (leb 0x09 c && leb c 0x0d)
    || eqb c 0x20
    || eqb c 0x85
    || eqb c 0xa0
    || eqb c 0x1680
    || (leb 0x2000 c && leb c 0x200a)
    || eqb c 0x2028
    || eqb c 0x2029
    || eqb c 0x202f
    || eqb c 0x205f
    || eqb c 0x3000

-- `value.trim().is_empty()`
unfoldable pub is_blank : String → Bool
unfolding is_white_space
is_blank String.[] = true
is_blank (String.◌∷◌ c s) = let rest = is_blank s in if is_white_space (code c) then rest else false

-- `validate_text`: the error, if any. `len` counts bytes of UTF-8.
unfoldable pub validate_text : String → String → ℕ → Option TaskError
unfolding is_blank
validate_text field value max_bytes =
    if is_blank value || ltb max_bytes (String.len value)
    then some (invalid_text field max_bytes)
    else none

-- `TaskLimits::validate`
unfoldable pub validate_limits : TaskLimits → Result TaskLimits
validate_limits l =
    if eqb l.max_steps 0 || ltb max_task_steps_hard l.max_steps
    then err (invalid_configuration "max_steps")
    else if eqb l.max_observations 0 || ltb max_task_observations_hard l.max_observations
    then err (invalid_configuration "max_observations")
    else if ltb max_task_retries_hard l.max_retries
    then err (invalid_configuration "max_retries")
    else if ltb max_task_replans_hard l.max_replans
    then err (invalid_configuration "max_replans")
    else if eqb l.max_lifetime_ms 0 || ltb max_task_lifetime_ms_hard l.max_lifetime_ms
    then err (invalid_configuration "max_lifetime_ms")
    else if eqb l.max_pending_ttl_ms 0
        || ltb max_task_pending_ttl_ms_hard l.max_pending_ttl_ms
        || ltb l.max_lifetime_ms l.max_pending_ttl_ms
    then err (invalid_configuration "max_pending_ttl_ms")
    else ok l
