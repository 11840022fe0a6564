-- ===== src/Runtime/Commands.antt =====
-- crates/runtime/src/lib.rs and crates/domain/src/control.rs: what control and the memory gate do.
use aivtuber.Common.{
  ℕ, ◌≡◌, ◌⊎◌, refl, sym, ◌∙◌, ap, String, Bool, true, false, none, some, List, [], length,
  string_eq, beq_self, arith,
}
use mathlib.Core.Option.{some-injective}
use aivtuber.Common.Map.{lookup, insert, lookup-insert}
use aivtuber.Scheduler.Stop.{stop_all, is_generation_live}
use aivtuber.Scheduler.Stops.{stop_all_stops}
use aivtuber.Ingress.Event.{Capability, AuthorizationMethod, contains, singleton}
use aivtuber.Ingress.Secret.{Byte}
use aivtuber.Ingress.Control
use aivtuber.Ingress.Control.{
  LocalControlIngress, OperatorCommandInput, AuthenticatedControl, AuthenticatedControlCommand,
  command_of, capability_for_action, authenticate,
}
use aivtuber.Ingress.Authority.{authenticate_iff}
use aivtuber.Runtime.Data.{
  TokenArithmetic, JsonText, SecurityRuntime, RuntimeError, RuntimeResult, ok, err, ControlOutcome,
  MemoryWriteDecision, MemoryWritePermit,
}
use aivtuber.Runtime.Data
use aivtuber.Runtime.Control.{
  handle_control, handle_control_with_scheduler, validate_authority_matches_event, payload_text,
  has_capability, authorized, same_method, same_capabilities,
}
use aivtuber.Runtime.Gate.{is_stop}
use aivtuber.Runtime.Valid.{RuntimeValid}

same_method_refl : (m : AuthorizationMethod) → same_method m m ≡ true
same_method_refl AuthorizationMethod.operator_ui = refl
same_method_refl AuthorizationMethod.operator_hotkey = refl
same_method_refl AuthorizationMethod.signed_local_api = refl

same_singleton : (c : Capability) → same_capabilities (singleton c) (singleton c) ≡ true
unfolding singleton
same_singleton Capability.performer_mute = refl
same_singleton Capability.performer_stop = refl
same_singleton Capability.obs_control = refl
same_singleton Capability.avatar_control = refl
same_singleton Capability.memory_admin = refl
same_singleton Capability.tool_grant = refl

-- The stop capability is the one of the stop actions.
stop_action :
    (action : String)
    → capability_for_action action ≡ some Capability.performer_stop
    → is_stop action ≡ true
unfolding capability_for_action
stop_action action e = ground arith

module _ {J F : Type 0} (a : TokenArithmetic) where
  -- What a control command may change.
  pub record IsGated (rt : SecurityRuntime J F a.Tokens) (command : AuthenticatedControlCommand J F)
      (at_ms : ℕ) (q : SecurityRuntime J F a.Tokens × RuntimeResult ControlOutcome) : Type 0 where
    pub scheduler :
        (q.0.scheduler ≡ rt.scheduler)
        ⊎ ((validate_authority_matches_event command.authority command.event ≡ none)
            × (has_capability command.authority Capability.performer_stop ≡ true)
            × (q.0.scheduler ≡ (stop_all rt.scheduler at_ms).0))
    pub mute :
        (q.0.muted ≡ rt.muted)
        ⊎ ((validate_authority_matches_event command.authority command.event ≡ none)
            × (has_capability command.authority Capability.performer_mute ≡ true)
            × (q.0.muted ≡ true))
    pub queue : q.0.content_queue ≡ rt.content_queue
    pub unchanged : ((o : ControlOutcome) × (q.1 ≡ ok o)) ⊎ (q.0 ≡ rt)

module _ {J F : Type 0} (a : TokenArithmetic) (json : JsonText J F) (json_string : String → J) where
  minted_matches :
      (ingress : LocalControlIngress) (input : OperatorCommandInput J) (c : Capability)
      → let command : AuthenticatedControlCommand J F = command_of json_string ingress input c in
        validate_authority_matches_event command.authority command.event ≡ none
  unfolding validate_authority_matches_event command_of
  minted_matches ingress input c =
      rw (beq_self ingress.principal, same_method_refl ingress.method, same_singleton c) refl

  minted_action :
      (ingress : LocalControlIngress) (input : OperatorCommandInput J) (c : Capability)
      → ((text : String) → json.as_str (json_string text) ≡ some text)
      → payload_text a json (command_of json_string ingress input c).event "action"
        ≡ some input.action
  unfolding payload_text command_of
  minted_action ingress input c reads =
      let key : String = "action" in
      let found : lookup key (insert key (json_string input.action) input.payload)
          ≡ some (json_string input.action) =
        rw lookup-insert refl in
      rw (found, payload_text) (reads input.action)

  stop_handled :
      (ingress : LocalControlIngress) (input : OperatorCommandInput J)
      (rt : SecurityRuntime J F a.Tokens) (at_ms : ℕ)
      → ((text : String) → json.as_str (json_string text) ≡ some text)
      → capability_for_action input.action ≡ some Capability.performer_stop
      → let command : AuthenticatedControlCommand J F =
          command_of json_string ingress input Capability.performer_stop in
        handle_control_with_scheduler a json rt command at_ms rt.scheduler ≡ (
          authorized a json rt command input.action,
          (stop_all rt.scheduler at_ms).0,
          ok (Data.stopped (length (stop_all rt.scheduler at_ms).1)),
        )
  unfolding handle_control_with_scheduler command_of singleton contains
  stop_handled ingress input rt at_ms reads stop = rw (
    minted_matches ingress input Capability.performer_stop,
    minted_action ingress input Capability.performer_stop reads,
    stop_action input.action stop,
    handle_control_with_scheduler,
  )

  module _ (in_unit : F → Bool) where
    -- On a runtime that satisfies its invariant, a command to stop that the local ingress has
    -- authenticated (where the secrets compared are of one length, and a text written into a JSON
    -- value is read back from it) always succeeds, whatever is queued: the scheduler holds nothing
    -- afterwards, no generation is live, and the answer is the number of plans that were stopped.
    pub authenticated_stop :
        (ingress : LocalControlIngress) (input : OperatorCommandInput J) (presented : List Byte)
        (command : AuthenticatedControlCommand J F) (rt : SecurityRuntime J F a.Tokens) (at_ms : ℕ)
        → RuntimeValid a in_unit rt
        → ((text : String) → json.as_str (json_string text) ≡ some text)
        → length ingress.secret ≡ length presented
        → capability_for_action input.action ≡ some Capability.performer_stop
        → authenticate json_string in_unit ingress input presented ≡ Control.ok command
        → ((handle_control a json rt command at_ms).1
            ≡ ok (Data.stopped (length (stop_all rt.scheduler at_ms).1)))
          × ((handle_control a json rt command at_ms).0.scheduler.items ≡ [])
          × ((g : ℕ)
              → is_generation_live (handle_control a json rt command at_ms).0.scheduler g ≡ false)
    unfolding handle_control
    authenticated_stop ingress input presented command rt at_ms h reads len stop granted =
        let scope =
          (authenticate_iff json_string in_unit ingress input presented command len).0 granted in
        let is_stopper : scope.capability ≡ Capability.performer_stop =
          some-injective scope.capability Capability.performer_stop
            (sym scope.allowlisted ∙ stop) in
        let minted : command ≡ command_of json_string ingress input Capability.performer_stop =
          scope.minted ∙ ap (command_of json_string ingress input) is_stopper in
        let handled : handle_control_with_scheduler a json rt command at_ms rt.scheduler ≡ (
          authorized a json rt command input.action,
          (stop_all rt.scheduler at_ms).0,
          ok (Data.stopped (length (stop_all rt.scheduler at_ms).1)),
        ) =
          rw (minted) (stop_handled ingress input rt at_ms reads stop) in
        rw (handled, handle_control)
          (
            refl,
            (stop_all_stops rt.scheduler at_ms h.sound.consistent).0,
            (stop_all_stops rt.scheduler at_ms h.sound.consistent).1,
          )
