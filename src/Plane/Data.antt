-- ===== src/Plane/Data.antt =====
-- crates/app/src/task_plane.rs: the state of the task plane, its configuration and its errors.
use aivtuber.Common.{
  ℕ, String, ◌||◌, Option, none, some, List, [], ◌∷◌, ltb, eqb, ◌==◌, string_eq, if◌then◌else◌,
}
use aivtuber.Common.Map.{lookup}
use aivtuber.Task.Data.{AgentTask, TaskError, TaskStateKind}
use aivtuber.Plane.Collector.{TaskTransitionCollector, with_retention}

abbrev pub max_active_tasks_hard : ℕ
max_active_tasks_hard = 256

abbrev pub max_retained_tasks_hard : ℕ
max_retained_tasks_hard = 512

abbrev pub max_task_transition_records_hard : ℕ
max_task_transition_records_hard = 16384

pub record TaskPlaneConfig : Type 0 where
  pub max_active_tasks : ℕ
  pub max_retained_tasks : ℕ
  pub max_transition_records : ℕ

abbrev pub default_plane_config : TaskPlaneConfig
default_plane_config = record {
  max_active_tasks = 32;
  max_retained_tasks = 64;
  max_transition_records = 1024;
}

pub data TaskPlaneError : Type 0 where
  invalid_configuration : String → TaskPlaneError
  duplicate_task : String → TaskPlaneError
  active_capacity_exceeded : TaskPlaneError
  unknown_task : String → TaskPlaneError
  task_not_active : String → TaskStateKind → TaskPlaneError
  stale_commit : ℕ → ℕ → TaskPlaneError
  task : TaskError → TaskPlaneError

pub data PlaneResult {ℓ} (A : Type ℓ) : Type ℓ where
  ok : A → PlaneResult A
  err : TaskPlaneError → PlaneResult A

-- `TaskPlaneConfig::validate`
unfoldable pub validate_config : TaskPlaneConfig → PlaneResult TaskPlaneConfig
validate_config c =
    if eqb c.max_active_tasks 0 || ltb max_active_tasks_hard c.max_active_tasks
    then err (invalid_configuration "max_active_tasks")
    else if eqb c.max_retained_tasks 0 || ltb max_retained_tasks_hard c.max_retained_tasks
    then err (invalid_configuration "max_retained_tasks")
    else if eqb c.max_transition_records 0
        || ltb max_task_transition_records_hard c.max_transition_records
    then err (invalid_configuration "max_transition_records")
    else ok c

-- `R` is the type of tool results, as in a task.
pub record TaskPlane (R : Type 0) : Type 0 where
  pub active : List (String × AgentTask R)
  pub retained : List (AgentTask R)
  pub transitions : TaskTransitionCollector
  pub config : TaskPlaneConfig

-- `TaskPlane::new`
unfoldable pub new_plane : {R : Type 0} → TaskPlaneConfig → PlaneResult (TaskPlane R)
unfolding validate_config
new_plane config = elim (validate_config config) [
  | err e ↦ err e
  | ok c ↦ ok (record {
    active = [];
    retained = [];
    transitions = with_retention c.max_transition_records;
    config = c;
  })
]

module _ {R : Type 0} where
  -- `retained.iter().rev().find(|task| task.id() == id)`
  unfoldable pub find_retained : String → List (AgentTask R) → Option (AgentTask R)
  find_retained id [] = none
  find_retained id (t ∷ ts) = elim (find_retained id ts) [
    | some later ↦ some later
    | none ↦ if t.id == id then some t else none
  ]

  -- `TaskPlane::task`
  unfoldable pub find_task : TaskPlane R → String → Option (AgentTask R)
  unfolding find_retained lookup
  find_task p id = elim (lookup id p.active) [
    | some t ↦ some t
    | none ↦ find_retained id p.retained
  ]
