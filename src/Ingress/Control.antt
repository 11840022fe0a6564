-- ===== src/Ingress/Control.antt =====
-- crates/domain/src/control.rs: the trusted local ingress of operator commands.
use aivtuber.Common.{
  ℕ, String, Bool, Option, none, some, List, ◌==◌, ◌||◌, string_eq, if◌then◌else◌,
}
use aivtuber.Common.Map.{insert}
use aivtuber.Scheduler.Data.{EventKind}
use aivtuber.Task.Data.{is_blank}
use aivtuber.Ingress.Event.{
  Capability, Capabilities, AuthorizationMethod, EventEnvelope, SourceClass, SecurityPlane,
  TrustLevel, DomainValidationError, contains, singleton, has_none, validate, event_schema_version,
}
use aivtuber.Ingress.Secret.{Byte, constant_time_eq}

pub record OperatorCommandInput (J : Type 0) : Type 0 where
  pub event_id : String
  pub correlation_id : String
  pub sequence : ℕ
  pub observed_at : String
  pub action : String
  pub payload : List (String × J)

pub record AuthenticatedControl : Type 0 where
  pub principal : String
  pub method : AuthorizationMethod
  pub capabilities : Capabilities

pub record AuthenticatedControlCommand (J F : Type 0) : Type 0 where
  pub event : EventEnvelope J F
  pub authority : AuthenticatedControl

pub data ControlIngressError : Type 0 where
  invalid_configuration : String → ControlIngressError
  authentication_failed action_not_allowlisted : ControlIngressError
  capability_not_granted : Capability → ControlIngressError
  invalid_command : DomainValidationError → ControlIngressError

pub data IngressResult (A : Type 0) : Type 0 where
  ok : A → IngressResult A
  err : ControlIngressError → IngressResult A

-- `ControlSecret` is its 32 bytes.
pub record LocalControlIngress : Type 0 where
  pub source : String
  pub principal : String
  pub method : AuthorizationMethod
  pub capabilities : Capabilities
  pub secret : List Byte

-- `LocalControlIngress::new`
unfoldable pub new_ingress :
    String
    → String
    → AuthorizationMethod
    → Capabilities
    → List Byte
    → IngressResult LocalControlIngress
unfolding has_none
new_ingress source principal method capabilities secret =
    if is_blank source
    then err (invalid_configuration "source")
    else if is_blank principal
    then err (invalid_configuration "principal")
    else if has_none capabilities
    then err (invalid_configuration "capabilities")
    else ok (record {
      source = source;
      principal = principal;
      method = method;
      capabilities = capabilities;
      secret = secret;
    })

unfoldable pub verify_secret : LocalControlIngress → List Byte → Bool
verify_secret ingress presented = constant_time_eq ingress.secret presented

-- `capability_for_action`
unfoldable pub capability_for_action : String → Option Capability
capability_for_action action =
    if action == "stop" || action == "performer.stop"
    then some Capability.performer_stop
    else if action == "mute" || action == "performer.mute"
    then some Capability.performer_mute
    else if action == "obs.control"
    then some Capability.obs_control
    else if action == "avatar.control"
    then some Capability.avatar_control
    else if action == "memory.admin"
    then some Capability.memory_admin
    else if action == "tool.grant"
    then some Capability.tool_grant
    else none

-- `json_string` is `serde_json::Value::String`.
module _ {J F : Type 0} (json_string : String → J) where
  -- The event and the authority of an authenticated command.
  unfoldable pub command_of :
      LocalControlIngress → OperatorCommandInput J → Capability → AuthenticatedControlCommand J F
  unfolding singleton
  command_of ingress input required = record {
    event = record {
      schema_version = event_schema_version;
      event_id = input.event_id;
      correlation_id = input.correlation_id;
      sequence = input.sequence;
      observed_at = input.observed_at;
      source = ingress.source;
      source_class = SourceClass.operator;
      plane = SecurityPlane.control;
      trust_level = TrustLevel.trusted;
      kind = EventKind.operator_command;
      actor_id = none;
      priority_hint = none;
      authorization = some (record {
        principal = ingress.principal;
        method = ingress.method;
        capabilities = singleton required;
      });
      payload = insert "action" (json_string input.action) input.payload;
    };
    authority = record {
      principal = ingress.principal;
      method = ingress.method;
      capabilities = singleton required;
    };
  }

-- `in_unit` is the test of a priority hint.
module _ {J F : Type 0} (json_string : String → J) (in_unit : F → Bool) where
  unfoldable pub authenticate :
      LocalControlIngress
      → OperatorCommandInput J
      → List Byte
      → IngressResult (AuthenticatedControlCommand J F)
  authenticate ingress input presented =
      if constant_time_eq ingress.secret presented
      then elim (capability_for_action input.action) [
        | none ↦ err action_not_allowlisted
        | some required ↦
            if contains ingress.capabilities required
            then (let command = command_of json_string ingress input required in
                elim (validate in_unit command.event) [
                  | some e ↦ err (invalid_command e)
                  | none ↦ ok command
                ])
            else err (capability_not_granted required)
      ]
      else err authentication_failed
