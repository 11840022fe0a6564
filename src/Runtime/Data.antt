-- ===== src/Runtime/Data.antt =====
-- crates/runtime/src/lib.rs: the configuration, the decisions and the state of the security runtime.
use aivtuber.Common.{
  ℕ, ◌≡◌, String, Bool, false, not, Option, none, some, List, [], eqb, if◌then◌else◌,
}
use aivtuber.Scheduler.Data.{Scheduler, SchedulerConfig, new_scheduler}
use aivtuber.Ingress.Event.{SourceClass, TrustLevel, EventEnvelope}
use aivtuber.Runtime.Text.{SecretRedactor}

-- What the runtime does with `f64` numbers of tokens.
pub record TokenArithmetic : Type 1 where
  pub Tokens : Type 0
  -- `f64::from`
  pub from_u32 : ℕ → Tokens
  -- `is_finite() && > 0.0`
  pub is_rate : Tokens → Bool
  -- `tokens + (elapsed_ms as f64 / 1000.0) * rate`
  pub refill : Tokens → ℕ → Tokens → Tokens
  -- `f64::min`
  pub least : Tokens → Tokens → Tokens
  -- `tokens < 1.0`
  pub is_short : Tokens → Bool
  -- `tokens - 1.0`
  pub spend : Tokens → Tokens

-- What the runtime takes from `serde_json`: `J` are its values and `F` the numbers of hints.
pub record JsonText (J F : Type 0) : Type 1 where
  pub Raw : Type 0
  pub byte_len : Raw → ℕ
  pub from_slice : Raw → Option (EventEnvelope J F)
  -- the number of bytes of `to_vec`
  pub payload_bytes : List (String × J) → Option ℕ
  pub as_str : J → Option String

pub record SecurityRuntimeConfig (T : Type 0) : Type 0 where
  pub content_rate_per_second : T
  pub content_burst : ℕ
  pub max_envelope_bytes : ℕ
  pub max_payload_bytes : ℕ
  pub content_queue_limit : ℕ
  pub max_audit_records : ℕ
  pub max_rate_limit_sources : ℕ
  pub rate_limit_source_ttl_ms : ℕ

-- The text of an envelope's error is left out.
pub data RuntimeError : Type 0 where
  invalid_configuration : String → RuntimeError
  invalid_envelope : RuntimeError
  unauthorized_control : String → RuntimeError

pub data RuntimeResult {ℓ} (A : Type ℓ) : Type ℓ where
  ok : A → RuntimeResult A
  err : RuntimeError → RuntimeResult A

pub data ContentAdmitDecision : Type 0 where
  queued dropped_envelope_bytes dropped_payload_bytes : ContentAdmitDecision
  dropped_rate dropped_backpressure rejected_non_content : ContentAdmitDecision

pub data ControlOutcome : Type 0 where
  stopped : ℕ → ControlOutcome
  muted authenticated_other : ControlOutcome

pub data MemoryWriteDecision : Type 0 where
  allowed_system_source allowed_memory_admin denied : MemoryWriteDecision

pub record MemoryWritePermit : Type 0 where
  pub event_id : String
  pub source : String
  pub source_class : SourceClass
  pub trust_level : TrustLevel
  pub actor_id : Option String
  pub decision : MemoryWriteDecision
  pub source_claim : Option String

-- crates/telemetry/src/lib.rs
pub data AuditCategory : Type 0 where
  ingress authorization output generation memory : AuditCategory

pub record AuditRecord : Type 0 where
  pub event_id : Option String
  pub category : AuditCategory
  pub decision : String
  pub detail : String

pub record Bucket (T : Type 0) : Type 0 where
  pub tokens : T
  pub last_refill_ms : ℕ

pub record CorrelationRef : Type 0 where
  pub event_id : String
  pub sequence : ℕ

-- `MAX_CORRELATION_REFS`
abbrev pub max_correlation_refs : ℕ
max_correlation_refs = 128

-- `T` are the numbers of tokens.
pub record SecurityRuntime (J F T : Type 0) : Type 0 where
  pub config : SecurityRuntimeConfig T
  pub scheduler : Scheduler
  pub buckets : List (String × Bucket T)
  pub content_queue : List (EventEnvelope J F)
  pub muted : Bool
  pub redactor : SecretRedactor
  pub cached_reaction : Option String
  pub audit : List AuditRecord
  pub audit_high_water : ℕ
  pub audit_evicted : ℕ
  pub rate_limit_sources_high_water : ℕ
  pub rate_limit_sources_expired : ℕ
  pub rate_limit_sources_rejected : ℕ
  pub content_queue_high_water : ℕ
  pub correlations : List (String × CorrelationRef)
  pub correlation_order : List String

pub ok-injective {ℓ} : {A : Type ℓ} (x y : A) → ok x ≡ ok y → x ≡ y
ok-injective x y e = cc e

-- `validate_config`: the error, if any.
unfoldable pub validate_runtime_config :
    (a : TokenArithmetic) → SecurityRuntimeConfig a.Tokens → Option RuntimeError
validate_runtime_config a c =
    if not (a.is_rate c.content_rate_per_second)
    then some (invalid_configuration "content_rate_per_second")
    else if eqb c.content_burst 0
    then some (invalid_configuration "content_burst")
    else if eqb c.max_envelope_bytes 0
    then some (invalid_configuration "max_envelope_bytes")
    else if eqb c.max_payload_bytes 0
    then some (invalid_configuration "max_payload_bytes")
    else if eqb c.content_queue_limit 0
    then some (invalid_configuration "content_queue_limit")
    else if eqb c.max_audit_records 0
    then some (invalid_configuration "max_audit_records")
    else if eqb c.max_rate_limit_sources 0
    then some (invalid_configuration "max_rate_limit_sources")
    else if eqb c.rate_limit_source_ttl_ms 0
    then some (invalid_configuration "rate_limit_source_ttl_ms")
    else none

-- `SecurityRuntime::new`
unfoldable pub new_runtime :
    {J F : Type 0} (a : TokenArithmetic)
    → SecurityRuntimeConfig a.Tokens
    → SchedulerConfig
    → SecretRedactor
    → Option String
    → RuntimeResult (SecurityRuntime J F a.Tokens)
unfolding validate_runtime_config new_scheduler
new_runtime a config scheduler_config redactor cached_reaction =
    elim (validate_runtime_config a config) [
      | some e ↦ err e
      | none ↦ ok (record {
        config = config;
        scheduler = new_scheduler scheduler_config;
        buckets = [];
        content_queue = [];
        muted = false;
        redactor = redactor;
        cached_reaction = cached_reaction;
        audit = [];
        audit_high_water = 0;
        audit_evicted = 0;
        rate_limit_sources_high_water = 0;
        rate_limit_sources_expired = 0;
        rate_limit_sources_rejected = 0;
        content_queue_high_water = 0;
        correlations = [];
        correlation_order = [];
      })
    ]
