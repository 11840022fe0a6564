-- ===== src/Plane/Collector.antt =====
-- crates/telemetry/src/task_transition.rs: the bounded record of the transitions of tasks.
use aivtuber.Common.{ℕ, ◌≤◌, List, [], ◌∷◌, ◌++◌, length, ltb, max, if◌then◌else◌, arith}
use aivtuber.Common.Word.{saturating_add}
use aivtuber.Task.Data.{TaskTransition}

-- `TaskTransitionObservation` has the fields of a transition, with the identifier as text.
abbrev pub TaskTransitionObservation : Type 0
TaskTransitionObservation = TaskTransition

pub record TaskTransitionCollector : Type 0 where
  pub records : List TaskTransitionObservation
  pub max_records : ℕ
  pub high_water : ℕ
  pub evicted : ℕ

-- `with_retention`; the source asserts that the bound is positive, which the plane has checked.
abbrev pub with_retention : ℕ → TaskTransitionCollector
with_retention bound = record { records = []; max_records = bound; high_water = 0; evicted = 0 }

-- `while self.records.len() > self.retention.max_records`
unfoldable pub trim_records :
    ℕ → List TaskTransitionObservation → ℕ → List TaskTransitionObservation × ℕ
trim_records bound [] evicted = ([], evicted)
trim_records bound (x ∷ xs) evicted =
    let rest = trim_records bound xs (saturating_add evicted 1) in
    if ltb bound (length (x ∷ xs)) then rest else (x ∷ xs, evicted)

-- `TaskTransitionCollector::record`
unfoldable pub collect : TaskTransitionCollector → TaskTransition → TaskTransitionCollector
unfolding trim_records
collect c transition =
    let (records, evicted) = trim_records c.max_records (c.records ++ transition ∷ []) c.evicted in
    record c {
      records = records;
      evicted = evicted;
      high_water = max c.high_water (length records);
    }

pub length-trim_records :
    (bound : ℕ) (xs : List TaskTransitionObservation) (evicted : ℕ)
    → length (trim_records bound xs evicted).0 ≤ bound
unfolding trim_records
length-trim_records bound [] evicted = omega arith
length-trim_records bound (x ∷ xs) evicted =
    ground (arith, length-trim_records bound xs (saturating_add evicted 1))
