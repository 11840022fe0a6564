-- ===== src/Runtime/Valid.antt =====
-- crates/runtime/src/lib.rs: what holds of the security runtime between two calls.
use aivtuber.Common.{
  ℕ, zero, suc, ◌-◌, ◌≤◌, ◌<◌, ◌≡◌, ◌≢◌, refl, inl, inr, String, Bool, false, none, some, List, [],
  ◌∷◌, ◌++◌, length, length-append, ltb, leb, string_eq, beq_self, if◌then◌else◌, Bool-cases,
  Option-cases, arith, max,
}
use aivtuber.Common.Each.{Each, Each-push}
use aivtuber.Common.Map.{lookup, insert, retain, lookup-insert, length-insert, length-insert_old}
use aivtuber.Scheduler.Reachable.{IsSound}
use aivtuber.Scheduler.Data.{EventKind}
use aivtuber.Ingress.Event.{EventEnvelope, SecurityPlane, validate}
use aivtuber.Budget.Data.{is_some}
use Prim.Native.String
use aivtuber.Common.Word.{saturating_add}
use aivtuber.Runtime.Text.{display}
use aivtuber.Runtime.Data.{
  AuditCategory, TokenArithmetic, SecurityRuntime, AuditRecord, Bucket, CorrelationRef,
  max_correlation_refs,
}
use aivtuber.Runtime.Content.{
  push_audit, drop_front, record_ingress, audit_record, expire_rate_limit_sources, take_token,
  add_bucket, consume_token, record_correlation, enqueue, is_foreign, without,
}
use aivtuber.Runtime.Correlations.{Covers, Covers-insert, trim_correlations-Covers}

length-drop_front : {A : Type 0} (n : ℕ) (xs : List A) → length (drop_front n xs) ≡ length xs - n
length-drop_front n [] = omega arith
length-drop_front zero (x ∷ xs) = omega arith
length-drop_front (suc n) (x ∷ xs) = omega (arith, length-drop_front n xs)

length-retain : {V : Type 0} (p : V → Bool) (m : List (String × V)) → length (retain p m) ≤ length m
unfolding retain
length-retain p [] = omega arith
length-retain p ((k, v) ∷ m) = ground (arith, length-retain p m)

module _ {J F : Type 0} (a : TokenArithmetic) (in_unit : F → Bool) where
  -- A valid event of the content plane, without authority.
  pub record IsContent (e : EventEnvelope J F) : Type 0 where
    pub valid : validate in_unit e ≡ none
    pub plane : e.plane ≡ SecurityPlane.content
    pub no_command : e.kind ≢ EventKind.operator_command
    pub unauthorized : e.authorization ≡ none

  pub is_foreign-IsContent :
      (e : EventEnvelope J F) → validate in_unit e ≡ none → is_foreign e ≡ false → IsContent e
  is_foreign-IsContent e valid belongs = record {
    valid = valid;
    plane = ground arith;
    no_command = λ k. ground arith;
    unauthorized = ground arith;
  }

  pub record RuntimeValid (rt : SecurityRuntime J F a.Tokens) : Type 0 where
    pub audit_capped : length rt.audit ≤ rt.config.max_audit_records
    pub queue_capped : length rt.content_queue ≤ rt.config.content_queue_limit
    pub queue_clean : Each IsContent rt.content_queue
    pub sources_capped : length rt.buckets ≤ rt.config.max_rate_limit_sources
    pub correlations_capped : length rt.correlations ≤ max_correlation_refs
    pub correlations_ordered : Covers rt.correlation_order rt.correlations
    pub sound : IsSound rt.scheduler

  module _ (rt : SecurityRuntime J F a.Tokens) (h : RuntimeValid rt) where
    pub push_audit-RuntimeValid : (r : AuditRecord) → RuntimeValid (push_audit a rt r)
    unfolding push_audit
    push_audit-RuntimeValid r = record {
      audit_capped = ground (
        arith,
        length-drop_front (length (rt.audit ++ r ∷ []) - rt.config.max_audit_records)
            (rt.audit ++ r ∷ []),
      );
      queue_capped = h.queue_capped;
      queue_clean = h.queue_clean;
      sources_capped = h.sources_capped;
      correlations_capped = h.correlations_capped;
      correlations_ordered = h.correlations_ordered;
      sound = h.sound;
    }

    -- A change of the buckets and of their counters.
    buckets-RuntimeValid :
        (buckets : List (String × Bucket a.Tokens)) (high expired rejected : ℕ)
        → length buckets ≤ rt.config.max_rate_limit_sources
        → RuntimeValid (record rt {
          buckets = buckets;
          rate_limit_sources_high_water = high;
          rate_limit_sources_expired = expired;
          rate_limit_sources_rejected = rejected;
        })
    buckets-RuntimeValid buckets high expired rejected few = record {
      audit_capped = h.audit_capped;
      queue_capped = h.queue_capped;
      queue_clean = h.queue_clean;
      sources_capped = few;
      correlations_capped = h.correlations_capped;
      correlations_ordered = h.correlations_ordered;
      sound = h.sound;
    }

    take_token-RuntimeValid :
        (source : String) (b : Bucket a.Tokens) (now : ℕ)
        → lookup source rt.buckets ≡ some b
        → RuntimeValid (take_token a rt source b now).0
    unfolding take_token
    take_token-RuntimeValid source b now at =
        let full =
          a.least (a.refill b.tokens (now - b.last_refill_ms) rt.config.content_rate_per_second)
            (a.from_u32 rt.config.content_burst) in
        let kept = λ (t : a.Tokens).
          buckets-RuntimeValid
            (insert source (record { tokens = t; last_refill_ms = now }) rt.buckets)
            rt.rate_limit_sources_high_water rt.rate_limit_sources_expired
            rt.rate_limit_sources_rejected
            (omega (
              arith,
              h.sources_capped,
              length-insert_old source (record { tokens = t; last_refill_ms = now }) b rt.buckets
                  at,
            )) in
        elim (Bool-cases (a.is_short full)) [
          | inl e ↦ rw (e, take_token) (kept full)
          | inr e ↦ rw (e, take_token) (kept (a.spend full))
        ]

    record_correlation-RuntimeValid :
        (e : EventEnvelope J F) → RuntimeValid (record_correlation a rt e)
    unfolding record_correlation
    record_correlation-RuntimeValid e =
        let r : CorrelationRef = record { event_id = e.event_id; sequence = e.sequence } in
        let (covers, few) =
          trim_correlations-Covers
            ((if is_some (lookup e.correlation_id rt.correlations)
                then without e.correlation_id rt.correlation_order
                else rt.correlation_order)
              ++ e.correlation_id ∷ [])
            (insert e.correlation_id r rt.correlations)
            (Covers-insert e.correlation_id r rt.correlation_order rt.correlations
              h.correlations_ordered) in
        record {
          audit_capped = h.audit_capped;
          queue_capped = h.queue_capped;
          queue_clean = h.queue_clean;
          sources_capped = h.sources_capped;
          correlations_capped = few;
          correlations_ordered = covers;
          sound = h.sound;
        }

  add_bucket-RuntimeValid :
      (rt : SecurityRuntime J F a.Tokens) (h : RuntimeValid rt) (source : String) (now : ℕ)
      → RuntimeValid (add_bucket a rt source now).0
  unfolding add_bucket expire_rate_limit_sources
  add_bucket-RuntimeValid rt h source now =
      let kept = expire_rate_limit_sources a rt now in
      let full : Bucket a.Tokens = record {
        tokens = a.from_u32 rt.config.content_burst;
        last_refill_ms = now;
      } in
      let fewer =
        length-retain
          (λ (b : Bucket a.Tokens). ltb (now - b.last_refill_ms) rt.config.rate_limit_source_ttl_ms)
          rt.buckets in
      let few : length kept.buckets ≤ rt.config.max_rate_limit_sources =
        omega (arith, fewer, h.sources_capped) in
      elim (Bool-cases (leb rt.config.max_rate_limit_sources (length kept.buckets))) [
        | inl e ↦
            rw (e, add_bucket)
              (buckets-RuntimeValid rt h kept.buckets rt.rate_limit_sources_high_water
                kept.rate_limit_sources_expired (saturating_add rt.rate_limit_sources_rejected 1)
                few)
        | inr e ↦
            let grown = insert source full kept.buckets in
            let room : length grown ≤ rt.config.max_rate_limit_sources =
              ground (arith, length-insert source full kept.buckets) in
            let high = max rt.rate_limit_sources_high_water (length grown) in
            let held =
              buckets-RuntimeValid rt h grown high kept.rate_limit_sources_expired
                rt.rate_limit_sources_rejected room in
            rw (e, add_bucket)
              (take_token-RuntimeValid
                (record kept { buckets = grown; rate_limit_sources_high_water = high }) held source
                full now (rw (lookup-insert, beq_self source) refl))
      ]

  pub consume_token-RuntimeValid :
      (rt : SecurityRuntime J F a.Tokens) (h : RuntimeValid rt) (source : String) (now : ℕ)
      → RuntimeValid (consume_token a rt source now).0
  unfolding consume_token
  consume_token-RuntimeValid rt h source now = elim (Option-cases (lookup source rt.buckets)) [
    | inl absent ↦ rw (absent, consume_token) (add_bucket-RuntimeValid rt h source now)
    | inr (b, at) ↦ rw (at, consume_token) (take_token-RuntimeValid rt h source b now at)
  ]

  -- A content event at the end of a queue with room.
  pub enqueue-RuntimeValid :
      (rt : SecurityRuntime J F a.Tokens) (h : RuntimeValid rt) (e : EventEnvelope J F)
      (payload_bytes : ℕ)
      → length rt.content_queue < rt.config.content_queue_limit
      → IsContent e
      → RuntimeValid (enqueue a rt e payload_bytes)
  unfolding enqueue record_ingress push_audit record_correlation
  enqueue-RuntimeValid rt h e payload_bytes room clean =
      let noted =
        record_ingress a rt e "queued" (String.◌++◌ "payload_bytes=" (display payload_bytes)) in
      let k =
        record_correlation-RuntimeValid noted
          (push_audit-RuntimeValid rt h (
            audit_record rt.redactor (some e.event_id) AuditCategory.ingress "queued"
              (String.◌++◌ "payload_bytes=" (display payload_bytes))))
          e in
      record {
        audit_capped = k.audit_capped;
        queue_capped = omega (arith, room, length-append rt.content_queue (e ∷ []));
        queue_clean = Each-push IsContent rt.content_queue e clean h.queue_clean;
        sources_capped = k.sources_capped;
        correlations_capped = k.correlations_capped;
        correlations_ordered = k.correlations_ordered;
        sound = k.sound;
      }
