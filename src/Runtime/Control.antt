-- ===== src/Runtime/Control.antt =====
-- crates/runtime/src/lib.rs: authenticated control, the gate of memory writes and the gate of public
-- output.
use Prim.Native.String
use aivtuber.Common.{
  ℕ, String, Bool, true, false, ◌||◌, ◌&&◌, not, Option, none, some, List, [], ◌∷◌, length, any,
  ◌==◌, string_eq, if◌then◌else◌,
}
use aivtuber.Common.Map.{lookup}
use aivtuber.Scheduler.Data.{Scheduler}
use aivtuber.Scheduler.Stop.{stop_all}
use aivtuber.Ingress.Event.{
  EventEnvelope, SecurityPlane, TrustLevel, Capability, Capabilities, AuthorizationMethod,
  same_plane, contains,
}
use aivtuber.Ingress.Control.{AuthenticatedControl, AuthenticatedControlCommand}
use aivtuber.Runtime.Text.{redact, contains_text, to_ascii_lowercase, SecretRedactor}
use aivtuber.Runtime.Data.{
  TokenArithmetic, JsonText, SecurityRuntime, RuntimeError, RuntimeResult, ok, err,
  unauthorized_control, ControlOutcome, stopped, muted, authenticated_other, MemoryWriteDecision,
  allowed_system_source, allowed_memory_admin, denied, MemoryWritePermit, AuditCategory,
  AuditRecord,
}
use aivtuber.Runtime.Content.{push_audit, audit_record, is_operator_command}

abbrev pub same_method : AuthorizationMethod → AuthorizationMethod → Bool
same_method AuthorizationMethod.operator_ui AuthorizationMethod.operator_ui = true
same_method AuthorizationMethod.operator_hotkey AuthorizationMethod.operator_hotkey = true
same_method AuthorizationMethod.signed_local_api AuthorizationMethod.signed_local_api = true
same_method _ _ = false

abbrev pub same_bool : Bool → Bool → Bool
same_bool true b = b
same_bool false b = not b

-- `==` of two sets of capabilities
abbrev pub same_capabilities : Capabilities → Capabilities → Bool
same_capabilities s t =
    same_bool s.performer_mute t.performer_mute
    && same_bool s.performer_stop t.performer_stop
    && same_bool s.obs_control t.obs_control
    && same_bool s.avatar_control t.avatar_control
    && same_bool s.memory_admin t.memory_admin
    && same_bool s.tool_grant t.tool_grant

-- `validate_authority_matches_event`: the error, if any.
unfoldable pub validate_authority_matches_event :
    {J F : Type 0} → AuthenticatedControl → EventEnvelope J F → Option RuntimeError
validate_authority_matches_event authority e =
    if not (is_operator_command e.kind) || not (same_plane e.plane SecurityPlane.control)
    then some (unauthorized_control "authority is not attached to an operator control event")
    else elim e.authorization [
      | none ↦ some (unauthorized_control "missing authorization claim")
      | some claim ↦
          if not (claim.principal == authority.principal)
            || not (same_method claim.method authority.method)
            || not (same_capabilities claim.capabilities authority.capabilities)
          then some (unauthorized_control "serialized claim does not match authenticated authority")
          else none
    ]

abbrev pub has_capability : AuthenticatedControl → Capability → Bool
has_capability authority capability = contains authority.capabilities capability

-- `format!("{decision:?}")`
abbrev debug_decision : MemoryWriteDecision → String
debug_decision allowed_system_source = "AllowedSystemSource"
debug_decision allowed_memory_admin = "AllowedMemoryAdmin"
debug_decision denied = "Denied"

-- `CONTROL_TERMS`
abbrev control_terms : List String
control_terms =
    "obs.control" ∷ "tool.grant" ∷ "memory.admin" ∷ "performer.stop" ∷ "performer.mute" ∷ []

pub data OutputVerdict : Type 0 where
  allow redacted replace_with_cached suppress : OutputVerdict

pub record PublicOutput : Type 0 where
  pub verdict : OutputVerdict
  pub text : Option String
  pub reason : String

pub record PublicOutputPolicy : Type 0 where
  pub redactor : SecretRedactor
  pub cached_reaction : Option String

-- `PublicOutputPolicy::evaluate`
unfoldable pub evaluate : PublicOutputPolicy → String → PublicOutput
unfolding redact contains_text to_ascii_lowercase
evaluate policy text =
    let lower = to_ascii_lowercase text in
    let clean = redact policy.redactor text in
    if any (λ term. contains_text term lower) control_terms
    then elim policy.cached_reaction [
      | some cached ↦ record {
        verdict = replace_with_cached;
        text = some (redact policy.redactor cached);
        reason = "control_plane_text";
      }
      | none ↦ record { verdict = suppress; text = none; reason = "control_plane_text" }
    ]
    else if clean == text
    then record { verdict = allow; text = some text; reason = "clean" }
    else record { verdict = redacted; text = some clean; reason = "configured_secret_redacted" }

-- `unwrap_or("-")`
abbrev or_dash : Option String → String
or_dash none = "-"
or_dash (some text) = text

module _ {J F : Type 0} (a : TokenArithmetic) where
  unfoldable pub record_output :
      SecurityRuntime J F a.Tokens → String → SecurityRuntime J F a.Tokens
  unfolding push_audit audit_record
  record_output rt reason =
      push_audit a rt (audit_record rt.redactor none AuditCategory.output reason reason)

  abbrev pub public_output_policy : SecurityRuntime J F a.Tokens → PublicOutputPolicy
  public_output_policy rt = record { redactor = rt.redactor; cached_reaction = rt.cached_reaction }

  unfoldable pub record_public_output_decision :
      SecurityRuntime J F a.Tokens → PublicOutput → SecurityRuntime J F a.Tokens
  unfolding record_output
  record_public_output_decision rt out = record_output rt out.reason

  unfoldable pub publish_text :
      SecurityRuntime J F a.Tokens → String → SecurityRuntime J F a.Tokens × PublicOutput
  unfolding evaluate record_public_output_decision
  publish_text rt text =
      let out = evaluate (public_output_policy rt) text in
      (record_public_output_decision rt out, out)

  unfoldable pub record_generation_call :
      SecurityRuntime J F a.Tokens
      → String
      → String
      → String
      → Option String
      → Option String
      → SecurityRuntime J F a.Tokens
  unfolding push_audit audit_record
  record_generation_call rt id routing_reason backend_name model_alias model_version =
      push_audit a rt (
        audit_record rt.redactor (some id) AuditCategory.generation "llm_call" (
          String.◌++◌ "routing_reason=" (
            String.◌++◌ routing_reason (
              String.◌++◌ " backend=" (
                String.◌++◌ backend_name (
                  String.◌++◌ " model_alias=" (
                    String.◌++◌ (or_dash model_alias)
                      (String.◌++◌ " model_version=" (or_dash model_version)))))))))

  unfoldable pub authorization_record :
      SecurityRuntime J F a.Tokens → AuthenticatedControlCommand J F → String → AuditRecord
  unfolding audit_record
  authorization_record rt command action =
      audit_record rt.redactor (some command.event.event_id) AuditCategory.authorization
        "authorized_control"
        (String.◌++◌ "principal="
          (String.◌++◌ command.authority.principal (String.◌++◌ " action=" action)))

  module _ (json : JsonText J F) where
    -- `payload.get(key).and_then(Value::as_str)`
    unfoldable pub payload_text : EventEnvelope J F → String → Option String
    unfolding lookup
    payload_text e key = elim (lookup key e.payload) [
      | none ↦ none
      | some value ↦ json.as_str value
    ]

    -- The audit of a control command that was carried out.
    unfoldable pub authorized :
        SecurityRuntime J F a.Tokens
        → AuthenticatedControlCommand J F
        → String
        → SecurityRuntime J F a.Tokens
    unfolding push_audit
    authorized rt command action = push_audit a rt (authorization_record rt command action)

    -- `handle_control_with_scheduler`: the runtime and the scheduler that is given.
    unfoldable pub handle_control_with_scheduler :
        SecurityRuntime J F a.Tokens
        → AuthenticatedControlCommand J F
        → ℕ
        → Scheduler
        → SecurityRuntime J F a.Tokens × Scheduler × RuntimeResult ControlOutcome
    unfolding validate_authority_matches_event payload_text authorized
    handle_control_with_scheduler rt command at_ms s =
        elim (validate_authority_matches_event command.authority command.event) [
          | some e ↦ (rt, s, err e)
          | none ↦ elim (payload_text command.event "action") [
            | none ↦ (rt, s, err (unauthorized_control "missing action"))
            | some action ↦
                if action == "stop" || action == "performer.stop"
                then (if has_capability command.authority Capability.performer_stop
                    then (
                      authorized rt command action,
                      (stop_all s at_ms).0,
                      ok (stopped (length (stop_all s at_ms).1)),
                    )
                    else (rt, s, err (unauthorized_control "capability not granted")))
                else if action == "mute" || action == "performer.mute"
                then (if has_capability command.authority Capability.performer_mute
                    then (authorized (record rt { muted = true }) command action, s, ok muted)
                    else (rt, s, err (unauthorized_control "capability not granted")))
                else (authorized rt command action, s, ok authenticated_other)
          ]
        ]

    -- `handle_control`: the same on the scheduler of the runtime.
    unfoldable pub handle_control :
        SecurityRuntime J F a.Tokens
        → AuthenticatedControlCommand J F
        → ℕ
        → SecurityRuntime J F a.Tokens × RuntimeResult ControlOutcome
    unfolding handle_control_with_scheduler
    handle_control rt command at_ms =
        let (next, s, r) = handle_control_with_scheduler rt command at_ms rt.scheduler in
        (record next { scheduler = s }, r)

    -- The decision of the gate of memory writes.
    unfoldable pub memory_decision :
        EventEnvelope J F → Option AuthenticatedControl → MemoryWriteDecision
    unfolding contains
    memory_decision e authority =
        if (elim authority [
          | none ↦ false
          | some auth ↦ has_capability auth Capability.memory_admin
        ])
        then allowed_memory_admin
        else if same_plane e.plane SecurityPlane.system
            && (elim e.trust_level [ TrustLevel.untrusted ↦ false | _ ↦ true ])
        then allowed_system_source
        else denied

    abbrev pub permit_of : EventEnvelope J F → MemoryWriteDecision → MemoryWritePermit
    permit_of e decision = record {
      event_id = e.event_id;
      source = e.source;
      source_class = e.source_class;
      trust_level = e.trust_level;
      actor_id = e.actor_id;
      decision = decision;
      source_claim = payload_text e "text";
    }

    unfoldable pub authorize_memory_write :
        SecurityRuntime J F a.Tokens
        → EventEnvelope J F
        → Option AuthenticatedControl
        → SecurityRuntime J F a.Tokens × MemoryWriteDecision × Option MemoryWritePermit
    unfolding push_audit audit_record memory_decision payload_text
    authorize_memory_write rt e authority =
        let decision = memory_decision e authority in
        (
          push_audit a rt (
              audit_record rt.redactor (some e.event_id) AuditCategory.memory
                (debug_decision decision) "memory write gate"),
          decision,
          elim decision [ denied ↦ none | allowed ↦ some (permit_of e allowed) ],
        )
