-- ===== src/Runtime/Admission.antt =====
-- crates/runtime/src/lib.rs: what the admission of content does, and what it leaves alone.
use Prim.Native.String
use aivtuber.Common.{
  ℕ, ◌-◌, ◌≤◌, ◌<◌, ◌≡◌, ◌≢◌, ◌⊎◌, refl, subst, ap, inl, inr, String, Bool, none, some, [], ◌∷◌,
  ◌++◌, max, length, ltb, leb, string_eq, Bool-cases, Option-cases, arith,
}
use aivtuber.Common.Map.{lookup, insert}
use aivtuber.Ingress.Event.{EventEnvelope, validate}
use aivtuber.Runtime.Text.{display}
use aivtuber.Runtime.Data.{
  TokenArithmetic, JsonText, SecurityRuntime, RuntimeResult, ok, err, ok-injective,
  invalid_envelope, ContentAdmitDecision, queued, dropped_envelope_bytes, dropped_payload_bytes,
  rejected_non_content, dropped_rate, dropped_backpressure, Bucket, AuditCategory, AuditRecord,
}
use aivtuber.Runtime.Content.{
  audit_record, push_audit, record_ingress, expire_rate_limit_sources, take_token, add_bucket,
  consume_token, record_correlation, enqueue, is_foreign, admit_sized, admit_event,
  admit_content_bytes,
}
use aivtuber.Runtime.Valid.{
  IsContent, is_foreign-IsContent, RuntimeValid, push_audit-RuntimeValid,
  consume_token-RuntimeValid, enqueue-RuntimeValid,
}

module _ {J F : Type 0} (a : TokenArithmetic) where
  -- The part of the runtime that admission only reads, and the queue.
  pub record Untouched (rt q : SecurityRuntime J F a.Tokens) : Type 0 where
    pub scheduler : q.scheduler ≡ rt.scheduler
    pub muted : q.muted ≡ rt.muted
    pub config : q.config ≡ rt.config
    pub queue : q.content_queue ≡ rt.content_queue

  take_token-Untouched :
      (rt : SecurityRuntime J F a.Tokens) (source : String) (b : Bucket a.Tokens) (now : ℕ)
      → Untouched rt (take_token a rt source b now).0
  unfolding take_token
  take_token-Untouched rt source b now =
      let full =
        a.least (a.refill b.tokens (now - b.last_refill_ms) rt.config.content_rate_per_second)
          (a.from_u32 rt.config.content_burst) in
      elim (Bool-cases (a.is_short full)) [
        | inl e ↦
            rw (e, take_token)
              (record { scheduler = refl; muted = refl; config = refl; queue = refl })
        | inr e ↦
            rw (e, take_token)
              (record { scheduler = refl; muted = refl; config = refl; queue = refl })
      ]

  consume_token-Untouched :
      (rt : SecurityRuntime J F a.Tokens) (source : String) (now : ℕ)
      → Untouched rt (consume_token a rt source now).0
  unfolding consume_token add_bucket expire_rate_limit_sources
  consume_token-Untouched rt source now = elim (Option-cases (lookup source rt.buckets)) [
    | inr (b, at) ↦ rw (at, consume_token) (take_token-Untouched rt source b now)
    | inl absent ↦
        let kept = expire_rate_limit_sources a rt now in
        elim (Bool-cases (leb rt.config.max_rate_limit_sources (length kept.buckets))) [
          | inl e ↦
              rw (absent, consume_token, e, add_bucket)
                (record { scheduler = refl; muted = refl; config = refl; queue = refl })
          | inr e ↦
              let full : Bucket a.Tokens = record {
                tokens = a.from_u32 rt.config.content_burst;
                last_refill_ms = now;
              } in
              let grown = insert source full kept.buckets in
              let t =
                take_token-Untouched
                  (record kept {
                    buckets = grown;
                    rate_limit_sources_high_water =
                        max rt.rate_limit_sources_high_water (length grown);
                  })
                  source full now in
              rw (absent, consume_token, e, add_bucket)
                (record {
                  scheduler = t.scheduler;
                  muted = t.muted;
                  config = t.config;
                  queue = t.queue;
                })
        ]
  ]

  module _ (json : JsonText J F) (in_unit : F → Bool) (rt : SecurityRuntime J F a.Tokens) where
    -- The one event that is queued, and why it may be.
    pub record IsQueued (raw : json.Raw)
        (q : SecurityRuntime J F a.Tokens × RuntimeResult ContentAdmitDecision) : Type 0 where
      pub event : EventEnvelope J F
      pub payload_bytes : ℕ
      pub within : json.byte_len raw ≤ rt.config.max_envelope_bytes
      pub parsed : json.from_slice raw ≡ some event
      pub content : IsContent a in_unit event
      pub measured : json.payload_bytes event.payload ≡ some payload_bytes
      pub small : payload_bytes ≤ rt.config.max_payload_bytes
      pub room : length rt.content_queue < rt.config.content_queue_limit
      pub decision : q.1 ≡ ok queued
      pub queue : q.0.content_queue ≡ rt.content_queue ++ event ∷ []

    -- Nothing is queued.
    pub record IsTurnedAway (q : SecurityRuntime J F a.Tokens × RuntimeResult ContentAdmitDecision)
        : Type 0 where
      pub decision : q.1 ≢ ok queued
      pub queue : q.0.content_queue ≡ rt.content_queue

    -- What an admission leaves alone.
    pub record IsContained (q : SecurityRuntime J F a.Tokens) : Type 0 where
      pub scheduler : q.scheduler ≡ rt.scheduler
      pub muted : q.muted ≡ rt.muted
      pub valid : RuntimeValid a in_unit q

    module _ (h : RuntimeValid a in_unit rt) (raw : json.Raw) (now : ℕ) where
      Fate : SecurityRuntime J F a.Tokens × RuntimeResult ContentAdmitDecision → Type 0
      Fate q = IsContained q.0 × (IsQueued raw q ⊎ IsTurnedAway q)

      -- A turn that only writes to the audit.
      noted-Fate :
          (r : AuditRecord) (d : RuntimeResult ContentAdmitDecision)
          → d ≢ ok queued
          → Fate (push_audit a rt r, d)
      unfolding push_audit Fate
      noted-Fate r d ne = (
        record { scheduler = refl; muted = refl; valid = push_audit-RuntimeValid a in_unit rt h r },
        inr (record { decision = ne; queue = refl }),
      )

      same-Fate : (d : RuntimeResult ContentAdmitDecision) → d ≢ ok queued → Fate (rt, d)
      unfolding Fate
      same-Fate d ne = (
        record { scheduler = refl; muted = refl; valid = h },
        inr (record { decision = ne; queue = refl }),
      )

      module _ (e : EventEnvelope J F) (payload_bytes : ℕ)
          (within : json.byte_len raw ≤ rt.config.max_envelope_bytes)
          (parsed : json.from_slice raw ≡ some e) (content : IsContent a in_unit e)
          (measured : json.payload_bytes e.payload ≡ some payload_bytes)
          (small : payload_bytes ≤ rt.config.max_payload_bytes) where
        -- After the token of the source, a turn that only writes to the audit.
        paid-Fate :
            (decision detail : String) (d : ContentAdmitDecision)
            → d ≢ queued
            → Fate (record_ingress a (consume_token a rt e.source now).0 e decision detail, ok d)
        unfolding record_ingress push_audit Fate
        paid-Fate decision detail d ne =
            let paid = (consume_token a rt e.source now).0 in
            let u = consume_token-Untouched rt e.source now in
            let v = consume_token-RuntimeValid a in_unit rt h e.source now in
            (
              record {
                scheduler = u.scheduler;
                muted = u.muted;
                valid = push_audit-RuntimeValid a in_unit paid v (
                    audit_record paid.redactor (some e.event_id) AuditCategory.ingress decision
                      detail);
              },
              inr (record { decision = λ same. ne (ok-injective d queued same); queue = u.queue }),
            )

        enqueue-Fate :
            (length (consume_token a rt e.source now).0.content_queue
              < (consume_token a rt e.source now).0.config.content_queue_limit)
            → Fate (enqueue a (consume_token a rt e.source now).0 e payload_bytes, ok queued)
        unfolding enqueue record_ingress push_audit record_correlation Fate
        enqueue-Fate room =
            let paid = (consume_token a rt e.source now).0 in
            let u = consume_token-Untouched rt e.source now in
            let v = consume_token-RuntimeValid a in_unit rt h e.source now in
            (
              record {
                scheduler = u.scheduler;
                muted = u.muted;
                valid = enqueue-RuntimeValid a in_unit paid v e payload_bytes room content;
              },
              inl (record {
                event = e;
                payload_bytes = payload_bytes;
                within = within;
                parsed = parsed;
                content = content;
                measured = measured;
                small = small;
                room =
                    subst (λ c. length rt.content_queue < c.content_queue_limit) u.config
                      (subst (λ q. length q < paid.config.content_queue_limit) u.queue room);
                decision = refl;
                queue = ap (λ q. q ++ e ∷ []) u.queue;
              }),
            )

        admit_sized-Fate :
            Fate (
              (admit_sized a rt e payload_bytes now).0,
              ok (admit_sized a rt e payload_bytes now).1,
            )
        unfolding admit_sized
        admit_sized-Fate =
            let (paid, allowed) = consume_token a rt e.source now in
            elim (Bool-cases allowed) [
              | inr unpaid ↦
                  rw (unpaid, admit_sized)
                    (paid-Fate "dropped_rate" "per-source token bucket exhausted" dropped_rate
                      (λ q. cc q))
              | inl paid_for ↦
                  elim (Bool-cases
                    (leb paid.config.content_queue_limit (length paid.content_queue))) [
                      | inl full ↦
                          rw (paid_for, full, admit_sized)
                            (paid-Fate "dropped_backpressure" "content queue full"
                              dropped_backpressure (λ q. cc q))
                      | inr room ↦ rw (paid_for, room, admit_sized) (enqueue-Fate (ground arith))
                    ]
            ]

      admit_event-Fate :
          (e : EventEnvelope J F)
          → json.byte_len raw ≤ rt.config.max_envelope_bytes
          → json.from_slice raw ≡ some e
          → validate in_unit e ≡ none
          → Fate (admit_event a json in_unit rt e now)
      unfolding admit_event record_ingress
      admit_event-Fate e within parsed valid = elim (Bool-cases (is_foreign e)) [
        | inl foreign ↦
            rw (foreign, admit_event)
              (noted-Fate
                (audit_record rt.redactor (some e.event_id) AuditCategory.ingress
                  "rejected_non_content"
                  "control/system authority is not accepted on content ingress")
                (ok rejected_non_content) (λ q. cc q))
        | inr belongs ↦ elim (Option-cases (json.payload_bytes e.payload)) [
          | inl unknown ↦
              rw (belongs, unknown, admit_event) (same-Fate (err invalid_envelope) (λ q. cc q))
          | inr (n, measured) ↦ elim (Bool-cases (ltb rt.config.max_payload_bytes n)) [
            | inl large ↦
                rw (belongs, measured, large, admit_event)
                  (noted-Fate
                    (audit_record rt.redactor (some e.event_id) AuditCategory.ingress
                      "dropped_payload_bytes" (String.◌++◌ "payload_bytes=" (display n)))
                    (ok dropped_payload_bytes) (λ q. cc q))
            | inr small ↦
                rw (belongs, measured, small, admit_event)
                  (admit_sized-Fate e n within parsed
                    (is_foreign-IsContent a in_unit e valid belongs) measured (ground arith))
          ]
        ]
      ]

      -- On a runtime that satisfies its invariant, whatever bytes arrive on the content ingress: the
      -- scheduler and the mute are untouched, and the invariant is kept. Either one event is queued,
      -- behind the others, and then the bytes are within the envelope limit, they parse as this
      -- event, it is valid, is of the content plane, is no operator command and carries no
      -- authorization, its payload is within its limit and the queue had room; or nothing is queued
      -- and the answer is another one.
      pub admit_content_bytes-Fate :
          IsContained (admit_content_bytes a json in_unit rt raw now).0
          × (IsQueued raw (admit_content_bytes a json in_unit rt raw now)
              ⊎ IsTurnedAway (admit_content_bytes a json in_unit rt raw now))
      unfolding admit_content_bytes Fate
      admit_content_bytes-Fate =
          elim (Bool-cases (ltb rt.config.max_envelope_bytes (json.byte_len raw))) [
            | inl large ↦
                rw (large, admit_content_bytes)
                  (noted-Fate
                    (audit_record rt.redactor none AuditCategory.ingress "dropped_envelope_bytes"
                      (String.◌++◌ "envelope_bytes=" (display (json.byte_len raw))))
                    (ok dropped_envelope_bytes) (λ q. cc q))
            | inr within ↦ elim (Option-cases (json.from_slice raw)) [
              | inl broken ↦
                  rw (within, broken, admit_content_bytes)
                    (same-Fate (err invalid_envelope) (λ q. cc q))
              | inr (e, parsed) ↦ elim (Option-cases (validate in_unit e)) [
                | inr (fault, bad) ↦
                    rw (within, parsed, bad, admit_content_bytes)
                      (same-Fate (err invalid_envelope) (λ q. cc q))
                | inl valid ↦
                    rw (within, parsed, valid, admit_content_bytes)
                      (admit_event-Fate e (ground arith) parsed valid)
              ]
            ]
          ]
