-- ===== src/Ingress/Event.antt =====
-- crates/domain/src/event.rs: the normalized event and its validation.
use aivtuber.Common.{
  ℕ, ◌≡◌, ◌≢◌, ◌⊎◌, String, Bool, true, false, ◌||◌, Option, none, some, List, [], ◌∷◌, ◌==◌,
  string_eq, ne_of_beq, any, if◌then◌else◌, arith,
}
use aivtuber.Scheduler.Data.{EventKind}
use aivtuber.Ingress.Dates.{is_json_schema_date_time}

pub data SourceClass : Type 0 where
  public_chat donation speech game stream timer operator system : SourceClass

pub data SecurityPlane : Type 0 where
  content control system : SecurityPlane

pub data TrustLevel : Type 0 where
  untrusted semi_trusted trusted : TrustLevel

pub data Capability : Type 0 where
  performer_mute performer_stop obs_control avatar_control memory_admin tool_grant : Capability

pub data AuthorizationMethod : Type 0 where
  operator_ui operator_hotkey signed_local_api : AuthorizationMethod

-- `BTreeSet<Capability>`: a set of the six capabilities, by its members.
pub record Capabilities : Type 0 where
  pub performer_mute : Bool
  pub performer_stop : Bool
  pub obs_control : Bool
  pub avatar_control : Bool
  pub memory_admin : Bool
  pub tool_grant : Bool

abbrev pub no_capabilities : Capabilities
no_capabilities = record {
  performer_mute = false;
  performer_stop = false;
  obs_control = false;
  avatar_control = false;
  memory_admin = false;
  tool_grant = false;
}

-- `BTreeSet::contains`
unfoldable pub contains : Capabilities → Capability → Bool
contains s Capability.performer_mute = s.performer_mute
contains s Capability.performer_stop = s.performer_stop
contains s Capability.obs_control = s.obs_control
contains s Capability.avatar_control = s.avatar_control
contains s Capability.memory_admin = s.memory_admin
contains s Capability.tool_grant = s.tool_grant

-- `BTreeSet::from([capability])`
unfoldable pub singleton : Capability → Capabilities
singleton Capability.performer_mute = record no_capabilities { performer_mute = true }
singleton Capability.performer_stop = record no_capabilities { performer_stop = true }
singleton Capability.obs_control = record no_capabilities { obs_control = true }
singleton Capability.avatar_control = record no_capabilities { avatar_control = true }
singleton Capability.memory_admin = record no_capabilities { memory_admin = true }
singleton Capability.tool_grant = record no_capabilities { tool_grant = true }

unfoldable pub has_none : Capabilities → Bool
has_none s =
    if s.performer_mute || s.performer_stop || s.obs_control || s.avatar_control || s.memory_admin
      || s.tool_grant
    then false
    else true

pub record AuthorizationContext : Type 0 where
  pub principal : String
  pub method : AuthorizationMethod
  pub capabilities : Capabilities

-- `J` is the type of JSON values, `F` the one of priority hints.
pub record EventEnvelope (J F : Type 0) : Type 0 where
  pub schema_version : String
  pub event_id : String
  pub correlation_id : String
  pub sequence : ℕ
  pub observed_at : String
  pub source : String
  pub source_class : SourceClass
  pub plane : SecurityPlane
  pub trust_level : TrustLevel
  pub kind : EventKind
  pub actor_id : Option String
  pub priority_hint : Option F
  pub authorization : Option AuthorizationContext
  pub payload : List (String × J)

-- `EVENT_SCHEMA_VERSION`
abbrev pub event_schema_version : String
event_schema_version = "0.2.0"

-- `DomainValidationError`, by the field that it names; the texts of the messages are left out.
pub record DomainValidationError : Type 0 where
  pub field : String

abbrev pub invalid_field : String → Option DomainValidationError
invalid_field name = some (record { field = name })

abbrev pub same_source_class : SourceClass → SourceClass → Bool
same_source_class SourceClass.public_chat SourceClass.public_chat = true
same_source_class SourceClass.donation SourceClass.donation = true
same_source_class SourceClass.speech SourceClass.speech = true
same_source_class SourceClass.game SourceClass.game = true
same_source_class SourceClass.stream SourceClass.stream = true
same_source_class SourceClass.timer SourceClass.timer = true
same_source_class SourceClass.operator SourceClass.operator = true
same_source_class SourceClass.system SourceClass.system = true
same_source_class _ _ = false

abbrev pub same_plane : SecurityPlane → SecurityPlane → Bool
same_plane SecurityPlane.content SecurityPlane.content = true
same_plane SecurityPlane.control SecurityPlane.control = true
same_plane SecurityPlane.system SecurityPlane.system = true
same_plane _ _ = false

abbrev pub same_trust : TrustLevel → TrustLevel → Bool
same_trust TrustLevel.untrusted TrustLevel.untrusted = true
same_trust TrustLevel.semi_trusted TrustLevel.semi_trusted = true
same_trust TrustLevel.trusted TrustLevel.trusted = true
same_trust _ _ = false

-- `require_non_empty(field, value)?` in front of the rest.
abbrev pub require_non_empty :
    String → String → Option DomainValidationError → Option DomainValidationError
require_non_empty name value rest = if value == "" then invalid_field name else rest

-- An authorization that names a principal and at least one capability.
abbrev pub IsGrant : Option AuthorizationContext → Type 0
IsGrant none = ⊥
IsGrant (some a) = (a.principal ≢ "") × (has_none a.capabilities ≡ false)

abbrev PassesGrant : Option AuthorizationContext → Type 0
PassesGrant none = ⊥
PassesGrant (some a) = ((a.principal == "") ≡ false) × (has_none a.capabilities ≡ false)

IsGrant-PassesGrant : (o : Option AuthorizationContext) → PassesGrant o → IsGrant o
IsGrant-PassesGrant none h = h
IsGrant-PassesGrant (some a) (p, c) = (ne_of_beq a.principal "" p, c)

-- The error of a validation, if any. `in_unit` tells whether a hint is a finite value in 0..=1.
module _ {J F : Type 0} (in_unit : F → Bool) where
  unfoldable pub validate_unprivileged :
      EventEnvelope J F
      → SourceClass
      → SecurityPlane
      → List TrustLevel
      → Option DomainValidationError
  validate_unprivileged e source_class plane trust =
      if same_source_class e.source_class source_class
      then (if same_plane e.plane plane
          then (if any (same_trust e.trust_level) trust
              then elim e.authorization [ some a ↦ invalid_field "authorization" | none ↦ none ]
              else invalid_field "trust_level")
          else invalid_field "plane")
      else invalid_field "source_class"

  unfoldable pub validate_operator_command : EventEnvelope J F → Option DomainValidationError
  unfolding has_none
  validate_operator_command e =
      if same_source_class e.source_class SourceClass.operator
      then (if same_plane e.plane SecurityPlane.control
          then (if same_trust e.trust_level TrustLevel.trusted
              then elim e.authorization [
                | none ↦ invalid_field "authorization"
                | some a ↦ require_non_empty "authorization.principal" a.principal (
                    if has_none a.capabilities
                    then invalid_field "authorization.capabilities"
                    else none)
              ]
              else invalid_field "trust_level")
          else invalid_field "plane")
      else invalid_field "source_class"

  -- The `match` on the kind.
  unfoldable pub validate_kind : EventEnvelope J F → EventKind → Option DomainValidationError
  unfolding validate_unprivileged validate_operator_command
  validate_kind e EventKind.chat_message =
      validate_unprivileged e SourceClass.public_chat SecurityPlane.content
        (TrustLevel.untrusted ∷ TrustLevel.semi_trusted ∷ [])
  validate_kind e EventKind.chat_donation =
      validate_unprivileged e SourceClass.donation SecurityPlane.content
        (TrustLevel.untrusted ∷ TrustLevel.semi_trusted ∷ [])
  validate_kind e EventKind.speech_input =
      validate_unprivileged e SourceClass.speech SecurityPlane.content
        (TrustLevel.untrusted ∷ TrustLevel.semi_trusted ∷ [])
  validate_kind e EventKind.game_event =
      validate_unprivileged e SourceClass.game SecurityPlane.content (TrustLevel.semi_trusted ∷ [])
  validate_kind e EventKind.stream_event =
      validate_unprivileged e SourceClass.stream SecurityPlane.system
        (TrustLevel.semi_trusted ∷ TrustLevel.trusted ∷ [])
  validate_kind e EventKind.timer_tick =
      validate_unprivileged e SourceClass.timer SecurityPlane.system (TrustLevel.trusted ∷ [])
  validate_kind e EventKind.system_health =
      validate_unprivileged e SourceClass.system SecurityPlane.system (TrustLevel.trusted ∷ [])
  validate_kind e EventKind.operator_command = validate_operator_command e

  -- `EventEnvelope::validate`
  unfoldable pub validate : EventEnvelope J F → Option DomainValidationError
  validate e =
      if e.schema_version == event_schema_version
      then require_non_empty "event_id" e.event_id (
          require_non_empty "correlation_id" e.correlation_id (
            if is_json_schema_date_time e.observed_at
            then require_non_empty "source" e.source (elim e.priority_hint [
              | none ↦ validate_kind e e.kind
              | some hint ↦
                  if in_unit hint then validate_kind e e.kind else invalid_field "priority_hint"
            ])
            else invalid_field "observed_at"))
      else invalid_field "schema_version"

  abbrev ClaimsAuthority : EventEnvelope J F → Type 0
  ClaimsAuthority e =
      (e.authorization ≢ none)
      ⊎ (e.plane ≡ SecurityPlane.control)
      ⊎ (e.source_class ≡ SourceClass.operator)

  kind_of_authority :
      (e : EventEnvelope J F) (k : EventKind)
      → validate_kind e k ≡ none
      → ClaimsAuthority e
      → (k ≡ EventKind.operator_command)
        × (e.source_class ≡ SourceClass.operator)
        × (e.plane ≡ SecurityPlane.control)
        × (e.trust_level ≡ TrustLevel.trusted)
        × PassesGrant e.authorization
  unfolding validate_kind
  kind_of_authority e EventKind.operator_command v c = ground arith
  kind_of_authority e _ v c = ground arith

  validate_kind-validate :
      (e : EventEnvelope J F) → validate e ≡ none → validate_kind e e.kind ≡ none
  unfolding validate
  validate_kind-validate e v = ground arith

  -- A valid event that carries an authorization, or stands on the control plane, or comes from the
  -- operator, is an operator command: it comes from the operator, on the control plane, trusted, and
  -- its authorization names a principal and at least one capability.
  pub authority_needs_operator :
      (e : EventEnvelope J F)
      → validate e ≡ none
      → (e.authorization ≢ none)
        ⊎ (e.plane ≡ SecurityPlane.control)
        ⊎ (e.source_class ≡ SourceClass.operator)
      → (e.kind ≡ EventKind.operator_command)
        × (e.source_class ≡ SourceClass.operator)
        × (e.plane ≡ SecurityPlane.control)
        × (e.trust_level ≡ TrustLevel.trusted)
        × IsGrant e.authorization
  authority_needs_operator e v c =
      let (k, s, p, t, g) = kind_of_authority e e.kind (validate_kind-validate e v) c in
      (k, s, p, t, IsGrant-PassesGrant e.authorization g)
