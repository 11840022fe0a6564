-- ===== src/Runtime/Examples.antt =====
-- crates/runtime/src/lib.rs: a runtime that counts tokens in thousandths, a chat message and a stop,
-- and the theorems of the runtime there.
use Prim.Native.Nat.{◌/◌}
use aivtuber.Common.{
  ℕ, zero, suc, ◌+◌, ◌-◌, ◌*◌, ◌≡◌, ◌⊎◌, ◌↔◌, refl, min, String, Bool, true, false, none, some,
  List, [], ◌∷◌, length, ltb, leb, string_eq, arith,
}
use aivtuber.Common.Map
use aivtuber.Common.Word.{saturating_add}
use aivtuber.Scheduler.Advance
use aivtuber.Scheduler.Arbitrate
use aivtuber.Scheduler.Schedule
use aivtuber.Scheduler.Schedule.{schedule_at}
use aivtuber.Scheduler.Reachable.{request}
use aivtuber.Scheduler.Data as Plans
use aivtuber.Scheduler.Data.{
  EventKind, default_config, new_scheduler, PlannedPerformance, Scheduler, conversation,
}
use aivtuber.Scheduler.Stop.{stop_all, is_generation_live}
use aivtuber.Ingress.Dates.{is_json_schema_date_time}
use aivtuber.Ingress.Event
use aivtuber.Ingress.Event.{
  EventEnvelope, SourceClass, SecurityPlane, TrustLevel, Capability, AuthorizationMethod,
  no_capabilities, validate,
}
use aivtuber.Ingress.Secret.{is_zero, or, xor, Byte, zero_byte, constant_time_eq}
use aivtuber.Ingress.Control
use aivtuber.Ingress.Control.{
  LocalControlIngress, OperatorCommandInput, AuthenticatedControl, AuthenticatedControlCommand,
  command_of, capability_for_action, authenticate,
}
use aivtuber.Runtime.Text.{SecretRedactor}
use aivtuber.Runtime.Data
use aivtuber.Runtime.Data.{
  TokenArithmetic, JsonText, SecurityRuntime, SecurityRuntimeConfig, MemoryWritePermit, new_runtime,
  validate_runtime_config, ok,
}
use aivtuber.Runtime.Content.{admit_content_bytes}
use aivtuber.Runtime.Control.{handle_control, authorize_memory_write, memory_decision, permit_of}
use aivtuber.Runtime.Calls.{RuntimeCall, runtime_call, calls, uses, RuntimeReach, here, next}
use aivtuber.Runtime.Valid.{RuntimeValid}
use aivtuber.Runtime.Admission.{IsContained, IsQueued, IsTurnedAway, admit_content_bytes-Fate}
use aivtuber.Runtime.Reachable.{new_runtime_reach-RuntimeValid}
use aivtuber.Runtime.Commands.{authenticated_stop}
use aivtuber.Runtime.Memory.{MayWrite, IsPermitOf, authorize_memory_write_iff}

-- Everything that a request computes with.
scheduling : Unit {0}
unfolding schedule_at new_scheduler Advance.advance_to Schedule.decide_at
    Plans.normalize_interrupt_points Plans.plans_conflict Plans.channels_meet
    Plans.intervals_overlap Plans.rank Plans.end_at_ms Plans.effective_end_ms saturating_add
    Map.lookup Map.insert Map.remove Map.retain
scheduling = tt

abbrev thousandths : TokenArithmetic
thousandths = record {
  Tokens = ℕ;
  from_u32 = λ n. n * 1000;
  is_rate = λ r. ltb 0 r;
  refill = λ t ms r. t + ms * r / 1000;
  least = λ s t. min s t;
  is_short = λ t. ltb t 1000;
  spend = λ t. t - 1000;
}

-- An envelope stands for its own bytes, a text for its JSON value.
abbrev plain : JsonText String ℕ
plain = record {
  Raw = EventEnvelope String ℕ;
  byte_len = λ e. 200;
  from_slice = λ e. some e;
  payload_bytes = λ p. some (length p * 20);
  as_str = λ s. some s;
}

abbrev in_unit : ℕ → Bool
in_unit n = leb n 1

abbrev chat : EventEnvelope String ℕ
chat = record {
  schema_version = "0.2.0";
  event_id = "evt-1";
  correlation_id = "corr-1";
  sequence = 1;
  observed_at = "2026-09-24T00:00:00Z";
  source = "chat:test";
  source_class = SourceClass.public_chat;
  plane = SecurityPlane.content;
  trust_level = TrustLevel.untrusted;
  kind = EventKind.chat_message;
  actor_id = some "viewer:1";
  priority_hint = none;
  authorization = none;
  payload = ("text", "hello") ∷ [];
}

abbrev config : SecurityRuntimeConfig ℕ
config = record {
  content_rate_per_second = 20000;
  content_burst = 40;
  max_envelope_bytes = 65536;
  max_payload_bytes = 16384;
  content_queue_limit = 2;
  max_audit_records = 3;
  max_rate_limit_sources = 4;
  rate_limit_source_ttl_ms = 600000;
}

abbrev redactor : SecretRedactor
redactor = record { secrets = "token-1" ∷ [] }

abbrev fresh : SecurityRuntime String ℕ ℕ
fresh = record {
  config = config;
  scheduler = new_scheduler default_config;
  buckets = [];
  content_queue = [];
  muted = false;
  redactor = redactor;
  cached_reaction = none;
  audit = [];
  audit_high_water = 0;
  audit_evicted = 0;
  rate_limit_sources_high_water = 0;
  rate_limit_sources_expired = 0;
  rate_limit_sources_rejected = 0;
  content_queue_high_water = 0;
  correlations = [];
  correlation_order = [];
}

fresh_lem :
    new_runtime {J = String} {F = ℕ} thousandths config default_config redactor none ≡ ok fresh
unfolding new_runtime validate_runtime_config
fresh_lem = refl

abbrev nine : Byte
nine = record zero_byte { b3 = true; b0 = true }

abbrev repeat : ℕ → List Byte
repeat zero = []
repeat (suc n) = nine ∷ repeat n

abbrev secret : List Byte
secret = repeat 32

abbrev ingress : LocalControlIngress
ingress = record {
  source = "local-test";
  principal = "operator:test";
  method = AuthorizationMethod.operator_hotkey;
  capabilities = record no_capabilities { performer_stop = true };
  secret = secret;
}

abbrev stop_input : OperatorCommandInput String
stop_input = record {
  event_id = "evt-control";
  correlation_id = "corr-control";
  sequence = 2;
  observed_at = "2026-09-24T00:00:00Z";
  action = "performer.stop";
  payload = [];
}

abbrev stop_command : AuthenticatedControlCommand String ℕ
stop_command = command_of (λ s. s) ingress stop_input Capability.performer_stop

stop_granted : authenticate (λ s. s) in_unit ingress stop_input secret ≡ Control.ok stop_command
unfolding authenticate constant_time_eq is_zero or xor capability_for_action Event.contains
    command_of validate Event.validate_kind is_json_schema_date_time Map.insert
stop_granted = refl

stop_allowed : capability_for_action stop_input.action ≡ some Capability.performer_stop
unfolding capability_for_action
stop_allowed = refl

-- A plan on the scheduler that the runtime lends out.
abbrev wave : PlannedPerformance
wave = record {
  event_id = "e1";
  asset_id = "asset.a";
  priority = conversation;
  interruptible = true;
  interrupt_points_ms = [];
  start_at_ms = 0;
  duration_ms = 1000;
  generation = 0;
  exclusive = false;
  channels = record { audio = true; face = false; body = false; gaze = false; overlay = false };
}

abbrev waving : Scheduler
waving = elim (schedule_at fresh.scheduler 0 wave) [ none ↦ fresh.scheduler | some (s, r) ↦ s ]

waving_lem :
    schedule_at fresh.scheduler 0 wave
    ≡ some (waving, Arbitrate.ok (record wave { generation = 1 }))
unfolding scheduling
waving_lem = refl

abbrev lent : SecurityRuntime String ℕ ℕ
lent = record fresh { scheduler = waving }

abbrev stopped : SecurityRuntime String ℕ ℕ
stopped =
    runtime_call thousandths plain in_unit
      (runtime_call thousandths plain in_unit lent (RuntimeCall.admit_content_bytes chat 100))
      (RuntimeCall.handle_control stop_command 150)

-- The plan is scheduled, a message comes in, and the stop ends the plan.
stopped_reached : RuntimeReach thousandths plain in_unit fresh stopped
unfolding new_scheduler
stopped_reached =
    next
      (next
        (next here (
          uses waving (
            request fresh.scheduler waving 0 wave (Arbitrate.ok (record wave { generation = 1 }))
              (omega arith) (omega arith) (omega arith) waving_lem)))
        (calls (RuntimeCall.admit_content_bytes chat 100) tt))
      (calls (RuntimeCall.handle_control stop_command 150) (omega arith))

new_runtime_reach-RuntimeValid_example : RuntimeValid thousandths in_unit stopped
new_runtime_reach-RuntimeValid_example =
    new_runtime_reach-RuntimeValid thousandths plain in_unit config default_config redactor none
      fresh_lem stopped_reached

fresh-RuntimeValid : RuntimeValid thousandths in_unit fresh
fresh-RuntimeValid =
    new_runtime_reach-RuntimeValid thousandths plain in_unit config default_config redactor none
      fresh_lem here

admit_content_bytes-Fate_example :
    IsContained thousandths plain in_unit fresh
      (admit_content_bytes thousandths plain in_unit fresh chat 100).0
    × (IsQueued thousandths plain in_unit fresh chat
          (admit_content_bytes thousandths plain in_unit fresh chat 100)
        ⊎ IsTurnedAway thousandths plain in_unit fresh
            (admit_content_bytes thousandths plain in_unit fresh chat 100))
admit_content_bytes-Fate_example =
    admit_content_bytes-Fate thousandths plain in_unit fresh fresh-RuntimeValid chat 100

authenticated_stop_example :
    ((handle_control thousandths plain fresh stop_command 150).1
      ≡ ok (Data.stopped (length (stop_all fresh.scheduler 150).1)))
    × ((handle_control thousandths plain fresh stop_command 150).0.scheduler.items ≡ [])
    × ((g : ℕ)
        → is_generation_live (handle_control thousandths plain fresh stop_command 150).0.scheduler g
          ≡ false)
authenticated_stop_example =
    authenticated_stop thousandths plain (λ s. s) in_unit ingress stop_input secret stop_command
      fresh 150 fresh-RuntimeValid (λ text. refl) refl stop_allowed stop_granted

abbrev librarian : AuthenticatedControl
librarian = record {
  principal = "operator:test";
  method = AuthorizationMethod.operator_ui;
  capabilities = record no_capabilities { memory_admin = true };
}

-- The chat message may be remembered on the operator's authority.
abbrev permit : MemoryWritePermit
permit = permit_of thousandths plain chat Data.allowed_memory_admin

permit_given :
    (authorize_memory_write thousandths plain fresh chat (some librarian)).2 ≡ some permit
unfolding authorize_memory_write memory_decision Event.contains
permit_given = refl

authorize_memory_write_iff_example :
    (((authorize_memory_write thousandths plain fresh chat (some librarian)).2 ≡ some permit) ↔ (
      MayWrite thousandths plain chat (some librarian)
      × IsPermitOf thousandths plain chat
          (authorize_memory_write thousandths plain fresh chat (some librarian)).1
          permit))
    × ((authorize_memory_write thousandths plain fresh chat (some librarian)).0.scheduler
        ≡ fresh.scheduler)
    × ((authorize_memory_write thousandths plain fresh chat (some librarian)).0.muted ≡ fresh.muted)
authorize_memory_write_iff_example =
    authorize_memory_write_iff thousandths plain fresh chat (some librarian) permit
