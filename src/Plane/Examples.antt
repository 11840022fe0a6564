-- ===== src/Plane/Examples.antt =====
-- crates/app/src/task_plane.rs: a small plane, runs of it, and the theorems of the plane there.
use aivtuber.Common.{◌↔◌, ◌⊎◌, ◌≡◌, ◌≢◌, ◌<◌, refl, String, none, some, List, [], ◌∷◌, string_eq}
use aivtuber.Common.Map
use aivtuber.Common.Map.{lookup}
use aivtuber.Common.Word.{saturating_add, checked_suc}
use aivtuber.Task.Data.{
  validate_limits, validate_text, is_blank, is_white_space, is_terminal_kind, AgentTask, TaskState,
  TaskStateKind, default_limits, kind,
}
use aivtuber.Task.Operations.{new_task}
use aivtuber.Task.Calls.{Call, call, operations}
use aivtuber.Plane.Collector.{trim_records, collect, with_retention}
use aivtuber.Plane.Data
use aivtuber.Plane.Data.{
  TaskPlane, TaskPlaneConfig, new_plane, find_task, find_retained, task_not_active, unknown_task,
}
use aivtuber.Plane.Operations
use aivtuber.Plane.Calls.{PlaneCall, plane_call, plane_calls}
use aivtuber.Plane.Acts.{is_refused}
use aivtuber.Plane.Invariant.{PlaneValid}
use aivtuber.Plane.Refines.{plane_operations}
use aivtuber.Plane.Reachable.{new_plane_calls-PlaneValid, plane_call-call}
use aivtuber.Plane.Absent.{IsUnlisted, IsLatest, plane_call-absent_iff}
use aivtuber.Plane.Overdue.{expire-clears}

-- Everything that a call of the plane computes with.
plane_program : Unit {0}
unfolding operations plane_operations plane_calls Operations.create_task Operations.expire
    Operations.commit_verification new_plane Data.validate_config find_task find_retained lookup
    Map.insert Map.remove collect trim_records new_task validate_limits validate_text is_blank
    is_white_space saturating_add checked_suc kind is_terminal_kind
plane_program = tt

abbrev small : TaskPlaneConfig
small = record { max_active_tasks = 2; max_retained_tasks = 1; max_transition_records = 4 }

abbrev empty_plane : TaskPlane String
empty_plane = record { active = []; retained = []; transitions = with_retention 4; config = small }

empty_plane_lem : new_plane {R = String} small ≡ Data.ok empty_plane
unfolding plane_program
empty_plane_lem = refl

-- One task waits for a plan, and one has been cancelled.
abbrev history : List (PlaneCall String)
history =
    PlaneCall.create_task "task:1" "compare the lights" 100 default_limits
    ∷ PlaneCall.create_task "task:2" "count the chairs" 200 default_limits
    ∷ PlaneCall.begin_planning "task:1" 210
    ∷ PlaneCall.cancel "task:2" "not now" 220
    ∷ []

abbrev busy : TaskPlane String
busy = plane_calls empty_plane history

new_plane_calls-PlaneValid_example : PlaneValid busy
new_plane_calls-PlaneValid_example = new_plane_calls-PlaneValid small history empty_plane_lem

abbrev planned : AgentTask String
planned = record {
  id = "task:1";
  requested_outcome = "compare the lights";
  state = TaskState.planning;
  steps = [];
  observations = [];
  limits = default_limits;
  created_at_ms = 100;
  updated_at_ms = 210;
  expires_at_ms = 900100;
  generation = 0;
  retries = 0;
  replans = 0;
  outcome = none;
}

planned_active : lookup "task:1" busy.active ≡ some planned
unfolding plane_program
planned_active = refl

plane_call-call_example :
    (find_task (plane_call busy (PlaneCall.cancel "task:1" "enough" 230)).0 "task:1"
      ≡ some (call planned (Call.cancel "enough" 230)).0)
    × ((j : String)
        → "task:1" ≢ j
        → lookup j (plane_call busy (PlaneCall.cancel "task:1" "enough" 230)).0.active
          ≡ lookup j busy.active)
    × (is_refused (plane_call busy (PlaneCall.cancel "task:1" "enough" 230)).1
        ≡ is_refused (call planned (Call.cancel "enough" 230)).1)
plane_call-call_example =
    plane_call-call busy (PlaneCall.cancel "task:1" "enough" 230) "task:1"
      (Call.cancel "enough" 230) planned new_plane_calls-PlaneValid_example refl planned_active

-- The cancelled task is retained.
cancelled_retained :
    plane_call busy (PlaneCall.add_step "task:2" "look")
    ≡ (busy, some (task_not_active "task:2" TaskStateKind.cancelled))
unfolding plane_program
cancelled_retained = refl

plane_call-absent_iff_example :
    (((plane_call busy (PlaneCall.add_step "task:2" "look")).1 ≡ some (unknown_task "task:2"))
      ↔ ((lookup "task:2" busy.active ≡ none) × IsUnlisted "task:2" busy.retained))
    × ((s : TaskStateKind)
        → ((plane_call busy (PlaneCall.add_step "task:2" "look")).1
            ≡ some (task_not_active "task:2" s))
          ↔ ((lookup "task:2" busy.active ≡ none)
              × ((t : AgentTask String) × IsLatest "task:2" busy.retained t × (kind t.state ≡ s))))
    × (((plane_call busy (PlaneCall.add_step "task:2" "look")).0 ≡ busy)
        ⊎ (lookup "task:2" busy.active ≢ none))
plane_call-absent_iff_example =
    plane_call-absent_iff busy (PlaneCall.add_step "task:2" "look") "task:2" (Call.add_step "look")
      new_plane_calls-PlaneValid_example refl

-- Of two active tasks, one is overdue.
abbrev crowd : List (PlaneCall String)
crowd =
    PlaneCall.create_task "task:1" "compare the lights" 100 default_limits
    ∷ PlaneCall.create_task "task:2" "count the chairs" 500 default_limits
    ∷ []

abbrev waiting : TaskPlane String
waiting = plane_calls empty_plane crowd

abbrev after_expiry : TaskPlane String
after_expiry = (Operations.expire waiting 900200).0

one_expires : Operations.expire waiting 900200 ≡ (after_expiry, Data.ok 1)
unfolding plane_program
one_expires = refl

abbrev in_time : AgentTask String
in_time = record {
  id = "task:2";
  requested_outcome = "count the chairs";
  state = TaskState.accepted;
  steps = [];
  observations = [];
  limits = default_limits;
  created_at_ms = 500;
  updated_at_ms = 500;
  expires_at_ms = 900500;
  generation = 0;
  retries = 0;
  replans = 0;
  outcome = none;
}

in_time_active : lookup "task:2" after_expiry.active ≡ some in_time
unfolding plane_program
in_time_active = refl

expire-clears_example : 900200 < in_time.expires_at_ms
expire-clears_example =
    expire-clears waiting 900200 1 (new_plane_calls-PlaneValid small crowd empty_plane_lem)
      one_expires "task:2" in_time in_time_active
