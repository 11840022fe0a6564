-- ===== src/Runtime/Reachable.antt =====
-- crates/runtime/src/lib.rs: what every sequence of calls on the runtime keeps.
use aivtuber.Common.{
  ℕ, ◌≤◌, ◌≡◌, ◌⊎◌, refl, subst, ap, inl, inr, String, Bool, true, false, Option, List, [], ◌∷◌,
  length, string_eq, Option-cases, arith,
}
use aivtuber.Common.Each.{Each}
use aivtuber.Scheduler.Data.{Scheduler, SchedulerConfig, new_scheduler}
use aivtuber.Scheduler.Stop.{stop_all}
use aivtuber.Ingress.Event.{EventEnvelope}
use aivtuber.Ingress.Control.{AuthenticatedControlCommand}
use aivtuber.Runtime.Text.{SecretRedactor}
use aivtuber.Runtime.Data.{
  TokenArithmetic, JsonText, SecurityRuntime, SecurityRuntimeConfig, AuditRecord, new_runtime,
  validate_runtime_config, ok, err, ok-injective,
}
use aivtuber.Runtime.Content
use aivtuber.Runtime.Content.{push_audit}
use aivtuber.Runtime.Control
use aivtuber.Runtime.Control.{
  handle_control, handle_control_with_scheduler, validate_authority_matches_event, payload_text,
  has_capability, authorized, authorization_record,
}
use aivtuber.Common.Map.{lookup}
use aivtuber.Scheduler.Reachable.{IsSound, new_scheduler-IsSound, Step, Step-IsSound, Reach-IsSound}
use aivtuber.Runtime.Gate.{refused, stops, mutes, notes, control_fate}
use aivtuber.Common.Word.{u64_max}
use aivtuber.Runtime.Calls.{
  RuntimeCall, runtime_call, HasWordTime, RuntimeStep, calls, uses, replaces, RuntimeReach, here,
  next,
}
use aivtuber.Runtime.Valid.{IsContent, RuntimeValid, push_audit-RuntimeValid}
use aivtuber.Runtime.Admission.{admit_content_bytes-Fate}

List-cases {ℓ} :
    {A : Type ℓ} (xs : List A) → (xs ≡ []) ⊎ ((x : A) × (rest : List A) × (xs ≡ x ∷ rest))
List-cases [] = inl refl
List-cases (x ∷ xs) = inr (x, xs, refl)

module _ {J F : Type 0} (a : TokenArithmetic) (json : JsonText J F) (in_unit : F → Bool) where
  -- A runtime without calls.
  bare-RuntimeValid :
      (config : SecurityRuntimeConfig a.Tokens) (scheduler_config : SchedulerConfig)
      (redactor : SecretRedactor) (cached : Option String)
      → RuntimeValid {J = J} {F = F} a in_unit (record {
        config = config;
        scheduler = new_scheduler scheduler_config;
        buckets = [];
        content_queue = [];
        muted = false;
        redactor = redactor;
        cached_reaction = cached;
        audit = [];
        audit_high_water = 0;
        audit_evicted = 0;
        rate_limit_sources_high_water = 0;
        rate_limit_sources_expired = 0;
        rate_limit_sources_rejected = 0;
        content_queue_high_water = 0;
        correlations = [];
        correlation_order = [];
      })
  unfolding lookup
  bare-RuntimeValid config scheduler_config redactor cached = record {
    audit_capped = omega arith;
    queue_capped = omega arith;
    queue_clean = tt;
    sources_capped = omega arith;
    correlations_capped = omega arith;
    correlations_ordered = λ id r e. cc e;
    sound = new_scheduler-IsSound scheduler_config;
  }

  new_runtime-RuntimeValid :
      (config : SecurityRuntimeConfig a.Tokens) (scheduler_config : SchedulerConfig)
      (redactor : SecretRedactor) (cached : Option String) {rt : SecurityRuntime J F a.Tokens}
      → new_runtime a config scheduler_config redactor cached ≡ ok rt
      → RuntimeValid a in_unit rt
  unfolding new_runtime
  new_runtime-RuntimeValid config scheduler_config redactor cached {rt} e =
      elim (Option-cases (validate_runtime_config a config)) [
        | inr (fault, bad) ↦
            let no : err fault ≡ ok rt = rw (bad, new_runtime) at e in absurd (cc no)
        | inl good ↦
            let same = ok-injective _ rt (rw (good, new_runtime) at e) in
            subst (RuntimeValid a in_unit) same
              (bare-RuntimeValid config scheduler_config redactor cached)
      ]

  module _ (rt : SecurityRuntime J F a.Tokens) (h : RuntimeValid a in_unit rt) where
    -- Another scheduler and another mute, with a record in the audit.
    governed-RuntimeValid :
        (s : Scheduler) (m : Bool) (r : AuditRecord)
        → IsSound s
        → RuntimeValid a in_unit
            (record (push_audit a (record rt { muted = m }) r) { scheduler = s })
    unfolding push_audit
    governed-RuntimeValid s m r sound =
        let k = push_audit-RuntimeValid a in_unit rt h r in
        record {
          audit_capped = k.audit_capped;
          queue_capped = k.queue_capped;
          queue_clean = k.queue_clean;
          sources_capped = k.sources_capped;
          correlations_capped = k.correlations_capped;
          correlations_ordered = k.correlations_ordered;
          sound = sound;
        }

    handle_control-RuntimeValid :
        (command : AuthenticatedControlCommand J F) (at_ms : ℕ)
        → at_ms ≤ u64_max
        → RuntimeValid a in_unit (handle_control a json rt command at_ms).0
    unfolding handle_control authorized authorization_record
    handle_control-RuntimeValid command at_ms word =
        elim (control_fate a json rt command at_ms rt.scheduler) [
          | refused e q ↦ rw (q, handle_control) h
          | stops action good found stop may q ↦
              rw (q, handle_control)
                (governed-RuntimeValid (stop_all rt.scheduler at_ms).0 rt.muted
                  (authorization_record a rt command action)
                  (Step-IsSound (Step.stop rt.scheduler at_ms word) h.sound))
          | mutes action good may q ↦
              rw (q, handle_control)
                (governed-RuntimeValid rt.scheduler true (authorization_record a rt command action)
                  h.sound)
          | notes action q ↦
              rw (q, handle_control)
                (governed-RuntimeValid rt.scheduler rt.muted
                  (authorization_record a rt command action) h.sound)
        ]

    -- The same on a scheduler that the caller owns.
    handle_control_with_scheduler-RuntimeValid :
        (command : AuthenticatedControlCommand J F) (at_ms : ℕ) (s : Scheduler)
        → RuntimeValid a in_unit (handle_control_with_scheduler a json rt command at_ms s).0
    unfolding authorized authorization_record
    handle_control_with_scheduler-RuntimeValid command at_ms s =
        elim (control_fate a json rt command at_ms s) [
          | refused e q ↦ rw q h
          | stops action good found stop may q ↦ rw q (
              governed-RuntimeValid rt.scheduler rt.muted (authorization_record a rt command action)
                h.sound)
          | mutes action good may q ↦ rw q (
              governed-RuntimeValid rt.scheduler true (authorization_record a rt command action)
                h.sound)
          | notes action q ↦ rw q (
              governed-RuntimeValid rt.scheduler rt.muted (authorization_record a rt command action)
                h.sound)
        ]

    pop_content-RuntimeValid : RuntimeValid a in_unit (Content.pop_content a rt).0
    unfolding Content.pop_content
    pop_content-RuntimeValid = elim (List-cases rt.content_queue) [
      | inl e ↦ rw (e, Content.pop_content) h
      | inr (x, rest, e) ↦
          rw (e, Content.pop_content)
            (record {
              audit_capped = h.audit_capped;
              queue_capped =
                  omega (arith, h.queue_capped, ap (λ (l : List (EventEnvelope J F)). length l) e);
              queue_clean = (subst (Each (IsContent a in_unit)) e h.queue_clean).1;
              sources_capped = h.sources_capped;
              correlations_capped = h.correlations_capped;
              correlations_ordered = h.correlations_ordered;
              sound = h.sound;
            })
    ]

  runtime_call-RuntimeValid :
      (rt : SecurityRuntime J F a.Tokens) (c : RuntimeCall json)
      → HasWordTime a json in_unit c
      → RuntimeValid a in_unit rt
      → RuntimeValid a in_unit (runtime_call a json in_unit rt c)
  unfolding runtime_call Control.authorize_memory_write Control.publish_text
      Control.record_public_output_decision Control.record_output Control.record_generation_call
  runtime_call-RuntimeValid rt (RuntimeCall.admit_content_bytes raw now) w h =
      (admit_content_bytes-Fate a json in_unit rt h raw now).0.valid
  runtime_call-RuntimeValid rt RuntimeCall.pop_content w h = pop_content-RuntimeValid rt h
  runtime_call-RuntimeValid rt (RuntimeCall.handle_control command at_ms) w h =
      handle_control-RuntimeValid rt h command at_ms w
  runtime_call-RuntimeValid rt (RuntimeCall.handle_control_with_scheduler command at_ms s) w h =
      handle_control_with_scheduler-RuntimeValid rt h command at_ms s
  runtime_call-RuntimeValid rt (RuntimeCall.record_public_output_decision out) w h =
      push_audit-RuntimeValid a in_unit rt h _
  runtime_call-RuntimeValid rt (RuntimeCall.authorize_memory_write e authority) w h =
      push_audit-RuntimeValid a in_unit rt h _
  runtime_call-RuntimeValid rt (RuntimeCall.publish_text text) w h =
      push_audit-RuntimeValid a in_unit rt h _
  runtime_call-RuntimeValid rt (RuntimeCall.record_generation_call id reason backend model version)
        w h =
      push_audit-RuntimeValid a in_unit rt h _
  runtime_call-RuntimeValid rt (RuntimeCall.push_external_audit r) w h =
      push_audit-RuntimeValid a in_unit rt h r

  lent-RuntimeValid :
      (rt : SecurityRuntime J F a.Tokens) (s : Scheduler)
      → RuntimeValid a in_unit rt
      → IsSound s
      → RuntimeValid a in_unit (record rt { scheduler = s })
  lent-RuntimeValid rt s h sound = record {
    audit_capped = h.audit_capped;
    queue_capped = h.queue_capped;
    queue_clean = h.queue_clean;
    sources_capped = h.sources_capped;
    correlations_capped = h.correlations_capped;
    correlations_ordered = h.correlations_ordered;
    sound = sound;
  }

  RuntimeStep-RuntimeValid :
      {rt after : SecurityRuntime J F a.Tokens}
      → RuntimeStep a json in_unit rt after
      → RuntimeValid a in_unit rt
      → RuntimeValid a in_unit after
  RuntimeStep-RuntimeValid {rt} (calls c w) h = runtime_call-RuntimeValid rt c w h
  RuntimeStep-RuntimeValid {rt} (uses s st) h = lent-RuntimeValid rt s h (Step-IsSound st h.sound)
  RuntimeStep-RuntimeValid {rt} (replaces config s r) h =
      lent-RuntimeValid rt s h (Reach-IsSound config r)

  RuntimeReach-RuntimeValid :
      {rt after : SecurityRuntime J F a.Tokens}
      → RuntimeReach a json in_unit rt after
      → RuntimeValid a in_unit rt
      → RuntimeValid a in_unit after
  RuntimeReach-RuntimeValid here h = h
  RuntimeReach-RuntimeValid (next r st) h =
      RuntimeStep-RuntimeValid st (RuntimeReach-RuntimeValid r h)

  -- Take any sequence of calls on a new runtime, whatever bytes and commands arrive, of operations on
  -- the scheduler that it lends out, and of replacements of that scheduler by one that operations on
  -- a new one reach; the times of stops and of scheduler operations are words, and each request finds
  -- a generation left. Afterwards the audit, the content queue, the rate-limited sources and the
  -- registry of correlations are within their limits; every registered correlation is in the order
  -- of admission; every queued event is valid, is of the content plane, is no operator command and
  -- carries no authorization; and the scheduler, with whatever was scheduled on it, is sound.
  pub new_runtime_reach-RuntimeValid :
      (config : SecurityRuntimeConfig a.Tokens) (scheduler_config : SchedulerConfig)
      (redactor : SecretRedactor) (cached : Option String) {rt after : SecurityRuntime J F a.Tokens}
      → new_runtime a config scheduler_config redactor cached ≡ ok rt
      → RuntimeReach a json in_unit rt after
      → RuntimeValid a in_unit after
  new_runtime_reach-RuntimeValid config scheduler_config redactor cached e r =
      RuntimeReach-RuntimeValid r
        (new_runtime-RuntimeValid config scheduler_config redactor cached e)
