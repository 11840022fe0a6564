-- ===== src/Ingress/Examples.antt =====
-- crates/domain/src/event.rs, control.rs and deadline.rs: a command of the operator, its event and
-- a deadline, and the theorems there.
use aivtuber.Common.{
  ℕ, zero, suc, ◌≤◌, ◌<◌, ◌≡◌, ◌↔◌, inl, inr, refl, String, Bool, true, none, List, [], ◌∷◌, leb,
}
use aivtuber.Common.Map.{insert}
use aivtuber.Scheduler.Data.{EventKind}
use aivtuber.Ingress.Dates.{
  days_in_month, days_in_year, IsLeap, days_in_month_lem, is_json_schema_date_time,
}
use aivtuber.Ingress.Event
use aivtuber.Ingress.Event.{
  AuthorizationMethod, EventEnvelope, IsGrant, no_capabilities, validate, authority_needs_operator,
  SourceClass, SecurityPlane, TrustLevel,
}
use aivtuber.Ingress.Secret.{
  is_zero, or, xor, Byte, zero_byte, constant_time_eq, constant_time_eq_iff,
}
use aivtuber.Ingress.Control.{
  LocalControlIngress, OperatorCommandInput, AuthenticatedControlCommand, command_of, authenticate,
  ok,
}
use aivtuber.Ingress.Authority.{IsScoped, authenticate_iff}
use aivtuber.Ingress.Deadline
use aivtuber.Ingress.Control

abbrev nine : Byte
nine = record zero_byte { b3 = true; b0 = true }

abbrev repeat : ℕ → List Byte
repeat zero = []
repeat (suc n) = nine ∷ repeat n

-- The secret of 32 bytes of the unit tests.
abbrev secret : List Byte
secret = repeat 32

abbrev ingress : LocalControlIngress
ingress = record {
  source = "local-test";
  principal = "operator:test";
  method = AuthorizationMethod.operator_hotkey;
  capabilities = record no_capabilities { performer_stop = true; obs_control = true };
  secret = secret;
}

abbrev input : OperatorCommandInput String
input = record {
  event_id = "evt-control";
  correlation_id = "corr-control";
  sequence = 1;
  observed_at = "2026-09-24T00:00:00Z";
  action = "performer.stop";
  payload = [];
}

abbrev hint_fits : ℕ → Bool
hint_fits n = leb n 1

abbrev command : AuthenticatedControlCommand String ℕ
command = command_of (λ s. s) ingress input Event.Capability.performer_stop

minted : authenticate (λ s. s) hint_fits ingress input secret ≡ ok command
unfolding authenticate constant_time_eq is_zero or xor Control.capability_for_action Event.contains
    command_of validate Event.validate_kind is_json_schema_date_time insert
minted = refl

authenticate_iff_example :
    (authenticate (λ s. s) hint_fits ingress input secret ≡ ok command)
    ↔ IsScoped (λ s. s) hint_fits ingress input secret command
authenticate_iff_example = authenticate_iff (λ s. s) hint_fits ingress input secret command refl

constant_time_eq_iff_example : (constant_time_eq secret secret ≡ true) ↔ (secret ≡ secret)
constant_time_eq_iff_example = constant_time_eq_iff secret secret refl

valid_command : validate hint_fits command.event ≡ none
unfolding command_of validate Event.validate_kind is_json_schema_date_time insert
valid_command = refl

on_control : command.event.plane ≡ SecurityPlane.control
unfolding command_of
on_control = refl

authority_needs_operator_example :
    (command.event.kind ≡ EventKind.operator_command)
    × (command.event.source_class ≡ SourceClass.operator)
    × (command.event.plane ≡ SecurityPlane.control)
    × (command.event.trust_level ≡ TrustLevel.trusted)
    × IsGrant command.event.authorization
authority_needs_operator_example =
    authority_needs_operator hint_fits command.event valid_command (inr (inl on_control))

days_in_month_lem_example :
    ((days_in_year 2024 ≡ 366) ↔ IsLeap 2024)
    × ((days_in_year 2024 ≡ 365) ↔ (¬ IsLeap 2024))
    × ((month : ℕ) → (0 < days_in_month 2024 month) ↔ ((0 < month) × (month ≤ 12)))
days_in_month_lem_example = days_in_month_lem 2024

abbrev deadline : Deadline.InteractionDeadline
deadline = record { class = Deadline.conversation; started_at_ms = 100; expires_at_ms = 600 }
