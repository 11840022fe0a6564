-- ===== src/Runtime/Gate.antt =====
-- crates/runtime/src/lib.rs: the four ways in which a control command ends.
use aivtuber.Common.{
  ℕ, ◌≡◌, inl, inr, String, Bool, true, ◌||◌, none, some, length, ◌==◌, string_eq, Bool-cases,
  Option-cases,
}
use aivtuber.Scheduler.Data.{Scheduler}
use aivtuber.Scheduler.Stop.{stop_all}
use aivtuber.Ingress.Event.{Capability}
use aivtuber.Ingress.Control.{AuthenticatedControlCommand}
use aivtuber.Runtime.Data.{
  TokenArithmetic, JsonText, SecurityRuntime, RuntimeError, RuntimeResult, ok, err,
  unauthorized_control, ControlOutcome,
}
use aivtuber.Runtime.Data
use aivtuber.Runtime.Control.{
  handle_control_with_scheduler, validate_authority_matches_event, payload_text, has_capability,
  authorized,
}

-- The names of the actions that stop and that mute.
abbrev pub is_stop : String → Bool
is_stop action = action == "stop" || action == "performer.stop"

abbrev pub is_mute : String → Bool
is_mute action = action == "mute" || action == "performer.mute"

module _ {J F : Type 0} (a : TokenArithmetic) (json : JsonText J F) where
  pub data ControlFate (rt : SecurityRuntime J F a.Tokens)
      (command : AuthenticatedControlCommand J F) (at_ms : ℕ) (s : Scheduler)
      (q : SecurityRuntime J F a.Tokens × Scheduler × RuntimeResult ControlOutcome) : Type 0 where
    refused : (e : RuntimeError) → q ≡ (rt, s, err e) → ControlFate rt command at_ms s q
    stops :
        (action : String)
        → validate_authority_matches_event command.authority command.event ≡ none
        → payload_text a json command.event "action" ≡ some action
        → is_stop action ≡ true
        → has_capability command.authority Capability.performer_stop ≡ true
        → q ≡ (
          authorized a json rt command action,
          (stop_all s at_ms).0,
          ok (Data.stopped (length (stop_all s at_ms).1)),
        )
        → ControlFate rt command at_ms s q
    mutes :
        (action : String)
        → validate_authority_matches_event command.authority command.event ≡ none
        → has_capability command.authority Capability.performer_mute ≡ true
        → q ≡ (authorized a json (record rt { muted = true }) command action, s, ok Data.muted)
        → ControlFate rt command at_ms s q
    notes :
        (action : String)
        → q ≡ (authorized a json rt command action, s, ok Data.authenticated_other)
        → ControlFate rt command at_ms s q

  pub control_fate :
      (rt : SecurityRuntime J F a.Tokens) (command : AuthenticatedControlCommand J F) (at_ms : ℕ)
      (s : Scheduler)
      → ControlFate rt command at_ms s (handle_control_with_scheduler a json rt command at_ms s)
  unfolding handle_control_with_scheduler
  control_fate rt command at_ms s =
      elim (Option-cases (validate_authority_matches_event command.authority command.event)) [
        | inr (e, bad) ↦ refused e (rw (bad, handle_control_with_scheduler))
        | inl good ↦ elim (Option-cases (payload_text a json command.event "action")) [
          | inl missing ↦
              refused (unauthorized_control "missing action")
                (rw (good, missing, handle_control_with_scheduler))
          | inr (action, found) ↦ elim (Bool-cases (is_stop action)) [
            | inl stop ↦
                elim (Bool-cases (has_capability command.authority Capability.performer_stop)) [
                  | inl may ↦
                      stops action good found stop may
                        (rw (good, found, stop, may, handle_control_with_scheduler))
                  | inr may_not ↦
                      refused (unauthorized_control "capability not granted")
                        (rw (good, found, stop, may_not, handle_control_with_scheduler))
                ]
            | inr go ↦ elim (Bool-cases (is_mute action)) [
              | inr neither ↦
                  notes action (rw (good, found, go, neither, handle_control_with_scheduler))
              | inl mute ↦
                  elim (Bool-cases (has_capability command.authority Capability.performer_mute)) [
                    | inl may ↦
                        mutes action good may
                          (rw (good, found, go, mute, may, handle_control_with_scheduler))
                    | inr may_not ↦
                        refused (unauthorized_control "capability not granted")
                          (rw (good, found, go, mute, may_not, handle_control_with_scheduler))
                  ]
            ]
          ]
        ]
      ]
