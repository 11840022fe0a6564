-- ===== src/Lib.antt =====
-- Verification of the deterministic core of aivtuber, a live performer engine.
--
-- The engine turns events into planned performances and commits them to one timeline. Content enters
-- through the limits of the Runtime and the checks of Ingress, is planned under the budgets of Budget,
-- and asks the Scheduler for a slot; the operator's control goes past the content, through Ingress and
-- Runtime, to the scheduler. Task is the state machine of the agent's longer work and Plane the store
-- of such tasks, under the same logical clock.
--
-- Scheduler (crates/scheduler/src/lib.rs). A request asks for a slot on the timeline; the scheduler
-- arbitrates it against playing work, against queued reservations and against the asset's cooldown,
-- and keeps two liveness indexes, by generation and by event, that the playback lanes consult before
-- they act.
--   Scheduler/Data       the types, the configuration, `Scheduler::new`, conflicts, safe boundaries
--   Scheduler/Advance    `retire`, `trim_history`, `advance_to`
--   Scheduler/Arbitrate  `cancel_queued` and the arbitration of `schedule_at` against playing work
--   Scheduler/Schedule   the queue of reservations, the commit, `schedule_at`, `schedule`
--   Scheduler/Stop       `stop_all`, `stop_current`, `complete_all`, `drain_history`, the lookups
--   Scheduler/Invariant  what holds between operations, and that each step keeps it
--   Scheduler/Requests, Stops, Current, Rejections, Reachable, Boundaries  the properties
--
-- Agent task (crates/domain/src/task.rs). A bounded state machine for one task of the agent.
--   Task/Data            the types, the limits and the checks on texts
--   Task/Operations      `new`, `transition`, and the operations up to `begin_execution`
--   Task/Execution       the operations while a step runs, verification, cancellation
--   Task/Calls           one type for the calls, and sequences of calls
--   Task/Invariant, Lifecycle, Guards  the invariant and the properties
--
-- Ingress (crates/domain/src/event.rs, control.rs, error.rs, deadline.rs). What enters the engine, on
-- whose authority, and how long it may take.
--   Ingress/Dates        `is_json_schema_date_time`, down to the bytes of the text
--   Ingress/Event        `EventEnvelope` and `validate`
--   Ingress/Secret       `constant_time_eq`, on bytes as eight bits
--   Ingress/Control      `LocalControlIngress::new`, `verify_secret`, `authenticate`
--   Ingress/Authority    the authority of what `authenticate` mints
--   Ingress/Deadline     `InteractionDeadline`
--
-- Task plane (crates/app/src/task_plane.rs, crates/telemetry/src/task_transition.rs, and the evidence
-- and snapshot types of crates/app/src/tool_execution.rs). The tasks that are active, by identifier,
-- the ones that have ended, in a bounded queue, and the bounded record of transitions.
--   Plane/Collector      `TaskTransitionCollector`
--   Plane/Data           the configuration, the errors, `TaskPlane::new` and `task`
--   Plane/Operations     every operation of the plane, over the ones of Task
--   Plane/Calls          one type for the calls, and the task's own call that each stands for
--   Plane/Reports, Retained, Invariant, Steps, Acts  what an operation of a task tells the plane, and
--                        what the plane does with it
--   Plane/Refines, Entry, Expiry, Overdue, Reachable, Absent  the properties
--
-- Generation budgets (crates/app/src/budget.rs). The governor that admits requests to the generation
-- providers within limits on concurrency, calls, units, characters and cost.
--   Budget/Data          the policy, its shares, the state of the governor and of a reservation
--   Budget/Governor      `try_admit`, `settle`, `release`, the drop of a reservation, `tick`
--   Budget/Calls         a governor with its outstanding reservations, and the calls on both
--   Budget/Admission     the three ways in which a request ends
--   Budget/Concurrent, Recent, Ledgers, Window, Amounts  the properties; the two ledgers of calls share
--                        one interface, `CallLedger`
--
-- Security runtime (crates/runtime/src/lib.rs, and the redactor and audit record of
-- crates/telemetry/src/lib.rs). The boundary between content, control and the scheduler.
--   Runtime/Text         redaction, searches and printed numbers, by the characters of a text
--   Runtime/Data         the configuration, the decisions, `SecurityRuntime::new`
--   Runtime/Content      the audit, the token buckets, the correlations, `admit_content_bytes`
--   Runtime/Control      `handle_control`, the memory gate, the output gate
--   Runtime/Calls        the calls, and the steps with the scheduler that is lent
--   Runtime/Correlations, Valid, Admission, Gate, Commands, Memory, Reachable  the properties
--
-- Raw ingress (crates/app/src/raw_ingress.rs). The bounded reader of records, one to a line.
--   Records/Reader       `read_bounded_record` and `finish_record` over the buffers of an input
--   Records/RoundTrip    the reader against the way a line is written
--
-- Common holds what the parts share: list functions on the native numbers, association lists for
-- the maps, the indexes of a list with `swap_remove`, and 64-bit words.
--
-- Conventions. A method with `&mut self` is a function that returns the new state beside its
-- result. A word is a natural number, with its saturation or its checked addition written out. A
-- BTreeMap is an association list in which `insert` replaces, read only through `lookup`,
-- `insert`, `remove`, `retain` and its size; where the plane walks the keys in order, it sorts
-- them. A loop that trims a queue to its limit is recursion on the queue. The loop of the registry
-- of correlations is recursion on the order of admission, at whose end the source would panic. An
-- index out of bounds, where the source would panic, is `none` of `schedule_at`; so is the end of
-- the fuel of its queue loop. That loop has one round for each item and one more as its fuel; the
-- loops of `advance_to` and `stop_all` have one turn for each item, since a turn either removes an
-- item or moves to the next one. Types of other crates that the code stores and never opens are
-- parameters: a tool's result, a JSON value with what `serde_json` does to it, a priority hint
-- with the test of its range, and the `f64` arithmetic of the token buckets. The sums and the slot
-- counter of the budgets wrap around, as in the release build. The reservations that a governor
-- has granted and its clients hold are a list beside it; a clone of a reservation is not modelled.
-- An error of the validation is the field that it names, and an error of an envelope is one error,
-- without the texts of their messages.
--
-- The input of the record reader is the list of the buffers that it is to hand out, none of them
-- empty; its loop is recursion on that list, and a read does not fail.
--
-- Not modelled: the seeded generator and the variation of parameters (floating point), metrics,
-- snapshots and plain getters, serialization, and the crates that talk to services, files and devices. The manifest of the components names each with its
-- reason.
pub mod Common
pub mod Scheduler
pub mod Task
pub mod Ingress
pub mod Plane
pub mod Budget
pub mod Runtime
pub mod Records
