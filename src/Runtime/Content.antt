-- ===== src/Runtime/Content.antt =====
-- crates/runtime/src/lib.rs: the audit, the token buckets and the admission of content.
use Prim.Native.String
use aivtuber.Common.{
  ℕ, zero, suc, ◌-◌, max, String, Bool, true, false, ◌||◌, not, Option, none, some, List, [], ◌∷◌,
  ◌++◌, length, ltb, leb, ◌==◌, string_eq, if◌then◌else◌,
}
use aivtuber.Common.Word.{saturating_add}
use aivtuber.Common.Map.{lookup, insert, remove, retain}
use aivtuber.Scheduler.Data.{EventKind}
use aivtuber.Ingress.Event.{EventEnvelope, SecurityPlane, same_plane, validate}
use aivtuber.Budget.Data.{is_some}
use aivtuber.Runtime.Text.{SecretRedactor, redact, display}
use aivtuber.Runtime.Data.{
  TokenArithmetic, JsonText, SecurityRuntime, RuntimeResult, ok, err, invalid_envelope,
  ContentAdmitDecision, queued, dropped_envelope_bytes, dropped_payload_bytes, dropped_rate,
  dropped_backpressure, rejected_non_content, AuditCategory, AuditRecord, Bucket, CorrelationRef,
  max_correlation_refs,
}

-- `SecretRedactor::record`
unfoldable pub audit_record :
    SecretRedactor → Option String → AuditCategory → String → String → AuditRecord
unfolding redact
audit_record r id category decision detail = record {
  event_id = id;
  category = category;
  decision = redact r decision;
  detail = redact r detail;
}

-- `drain(..remove)`
abbrev pub drop_front {ℓ} : {A : Type ℓ} → ℕ → List A → List A
drop_front n [] = []
drop_front zero (x ∷ xs) = x ∷ xs
drop_front (suc n) (x ∷ xs) = drop_front n xs

abbrev pub is_operator_command : EventKind → Bool
is_operator_command EventKind.operator_command = true
is_operator_command _ = false

-- Whether an event does not belong on the content ingress.
abbrev pub is_foreign : {J F : Type 0} → EventEnvelope J F → Bool
is_foreign e =
    not (same_plane e.plane SecurityPlane.content)
    || is_operator_command e.kind
    || is_some e.authorization

-- `retain(|id| id != ..)`
unfoldable pub without : String → List String → List String
without id [] = []
without id (j ∷ js) = let kept = without id js in if j == id then kept else j ∷ kept

-- `while self.correlations.len() > MAX_CORRELATION_REFS`, over the ids in the order of admission. The
-- source panics where the order ends before the loop does.
unfoldable pub trim_correlations :
    List String → List (String × CorrelationRef) → List String × List (String × CorrelationRef)
unfolding remove
trim_correlations [] refs = ([], refs)
trim_correlations (oldest ∷ order) refs =
    let rest = trim_correlations order (remove oldest refs) in
    if ltb max_correlation_refs (length refs) then rest else (oldest ∷ order, refs)

module _ {J F : Type 0} (a : TokenArithmetic) where
  unfoldable pub push_audit :
      SecurityRuntime J F a.Tokens → AuditRecord → SecurityRuntime J F a.Tokens
  unfolding saturating_add
  push_audit rt r =
      let grown = rt.audit ++ r ∷ [] in
      let excess = length grown - rt.config.max_audit_records in
      let kept =
        if ltb rt.config.max_audit_records (length grown) then drop_front excess grown else grown in
      record rt {
        audit = kept;
        audit_evicted =
            if ltb rt.config.max_audit_records (length grown)
            then saturating_add rt.audit_evicted excess
            else rt.audit_evicted;
        audit_high_water = max rt.audit_high_water (length kept);
      }

  unfoldable pub record_ingress :
      SecurityRuntime J F a.Tokens
      → EventEnvelope J F
      → String
      → String
      → SecurityRuntime J F a.Tokens
  unfolding push_audit audit_record
  record_ingress rt e decision detail =
      push_audit rt
        (audit_record rt.redactor (some e.event_id) AuditCategory.ingress decision detail)

  unfoldable pub expire_rate_limit_sources :
      SecurityRuntime J F a.Tokens → ℕ → SecurityRuntime J F a.Tokens
  unfolding retain saturating_add
  expire_rate_limit_sources rt now =
      let kept =
        retain
          (λ (b : Bucket a.Tokens). ltb (now - b.last_refill_ms) rt.config.rate_limit_source_ttl_ms)
          rt.buckets in
      record rt {
        buckets = kept;
        rate_limit_sources_expired =
            saturating_add rt.rate_limit_sources_expired (length rt.buckets - length kept);
      }

  -- The end of `consume_token`, on the bucket of the source.
  unfoldable pub take_token :
      SecurityRuntime J F a.Tokens
      → String
      → Bucket a.Tokens
      → ℕ
      → SecurityRuntime J F a.Tokens × Bool
  unfolding insert
  take_token rt source b now =
      let full =
        a.least (a.refill b.tokens (now - b.last_refill_ms) rt.config.content_rate_per_second)
          (a.from_u32 rt.config.content_burst) in
      if a.is_short full
      then (
        record rt {
          buckets = insert source (record { tokens = full; last_refill_ms = now }) rt.buckets;
        },
        false,
      )
      else (
        record rt {
          buckets =
              insert source (record { tokens = a.spend full; last_refill_ms = now }) rt.buckets;
        },
        true,
      )

  -- A source that has no bucket gets a full one, if there is room.
  unfoldable pub add_bucket :
      SecurityRuntime J F a.Tokens → String → ℕ → SecurityRuntime J F a.Tokens × Bool
  unfolding expire_rate_limit_sources take_token
  add_bucket rt source now =
      let kept = expire_rate_limit_sources rt now in
      let full : Bucket a.Tokens = record {
        tokens = a.from_u32 kept.config.content_burst;
        last_refill_ms = now;
      } in
      let grown = insert source full kept.buckets in
      if leb kept.config.max_rate_limit_sources (length kept.buckets)
      then (
        record kept {
          rate_limit_sources_rejected = saturating_add kept.rate_limit_sources_rejected 1;
        },
        false,
      )
      else take_token
          (record kept {
            buckets = grown;
            rate_limit_sources_high_water = max kept.rate_limit_sources_high_water (length grown);
          })
          source full now

  unfoldable pub consume_token :
      SecurityRuntime J F a.Tokens → String → ℕ → SecurityRuntime J F a.Tokens × Bool
  unfolding lookup add_bucket take_token
  consume_token rt source now = elim (lookup source rt.buckets) [
    | some b ↦ take_token rt source b now
    | none ↦ add_bucket rt source now
  ]

  unfoldable pub record_correlation :
      SecurityRuntime J F a.Tokens → EventEnvelope J F → SecurityRuntime J F a.Tokens
  unfolding without trim_correlations insert lookup
  record_correlation rt e =
      let order =
        if is_some (lookup e.correlation_id rt.correlations)
        then without e.correlation_id rt.correlation_order
        else rt.correlation_order in
      let refs =
        insert e.correlation_id (record { event_id = e.event_id; sequence = e.sequence })
          rt.correlations in
      let trimmed = trim_correlations (order ++ e.correlation_id ∷ []) refs in
      record rt { correlation_order = trimmed.0; correlations = trimmed.1 }

  unfoldable pub pop_content :
      SecurityRuntime J F a.Tokens → SecurityRuntime J F a.Tokens × Option (EventEnvelope J F)
  pop_content rt = elim rt.content_queue [
    | [] ↦ (rt, none)
    | e ∷ rest ↦ (record rt { content_queue = rest }, some e)
  ]

  -- The end of the admission: the audit, the correlation and the queue.
  unfoldable pub enqueue :
      SecurityRuntime J F a.Tokens → EventEnvelope J F → ℕ → SecurityRuntime J F a.Tokens
  unfolding record_ingress record_correlation display
  enqueue rt e payload_bytes =
      let noted =
        record_correlation
          (record_ingress rt e "queued" (String.◌++◌ "payload_bytes=" (display payload_bytes))) e in
      let grown = noted.content_queue ++ e ∷ [] in
      record noted {
        content_queue = grown;
        content_queue_high_water = max noted.content_queue_high_water (length grown);
      }

  -- A content event of a known size, against the rate and the queue.
  unfoldable pub admit_sized :
      SecurityRuntime J F a.Tokens
      → EventEnvelope J F
      → ℕ
      → ℕ
      → SecurityRuntime J F a.Tokens × ContentAdmitDecision
  unfolding consume_token record_ingress enqueue
  admit_sized rt e payload_bytes now =
      let (paid, allowed) = consume_token rt e.source now in
      if not allowed
      then (record_ingress paid e "dropped_rate" "per-source token bucket exhausted", dropped_rate)
      else if leb paid.config.content_queue_limit (length paid.content_queue)
      then (record_ingress paid e "dropped_backpressure" "content queue full", dropped_backpressure)
      else (enqueue paid e payload_bytes, queued)

  module _ (json : JsonText J F) (in_unit : F → Bool) where
    -- A valid event.
    unfoldable pub admit_event :
        SecurityRuntime J F a.Tokens
        → EventEnvelope J F
        → ℕ
        → SecurityRuntime J F a.Tokens × RuntimeResult ContentAdmitDecision
    unfolding record_ingress display admit_sized
    admit_event rt e now =
        if is_foreign e
        then (
          record_ingress rt e "rejected_non_content"
              "control/system authority is not accepted on content ingress",
          ok rejected_non_content,
        )
        else elim (json.payload_bytes e.payload) [
          | none ↦ (rt, err invalid_envelope)
          | some payload_bytes ↦
              if ltb rt.config.max_payload_bytes payload_bytes
              then (
                record_ingress rt e "dropped_payload_bytes"
                    (String.◌++◌ "payload_bytes=" (display payload_bytes)),
                ok dropped_payload_bytes,
              )
              else (
                (admit_sized rt e payload_bytes now).0,
                ok (admit_sized rt e payload_bytes now).1,
              )
        ]

    unfoldable pub admit_content_bytes :
        SecurityRuntime J F a.Tokens
        → json.Raw
        → ℕ
        → SecurityRuntime J F a.Tokens × RuntimeResult ContentAdmitDecision
    unfolding push_audit audit_record display admit_event
    admit_content_bytes rt raw now =
        if ltb rt.config.max_envelope_bytes (json.byte_len raw)
        then (
          push_audit rt (
              audit_record rt.redactor none AuditCategory.ingress "dropped_envelope_bytes"
                (String.◌++◌ "envelope_bytes=" (display (json.byte_len raw)))),
          ok dropped_envelope_bytes,
        )
        else elim (json.from_slice raw) [
          | none ↦ (rt, err invalid_envelope)
          | some e ↦ elim (validate in_unit e) [
            | some fault ↦ (rt, err invalid_envelope)
            | none ↦ admit_event rt e now
          ]
        ]
