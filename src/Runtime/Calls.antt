-- ===== src/Runtime/Calls.antt =====
-- crates/runtime/src/lib.rs: one type for the calls of the operations that change the runtime.
use aivtuber.Common.{ℕ, ◌≤◌, String, Bool, Option}
use aivtuber.Common.Word.{u64_max}
use aivtuber.Scheduler.Data.{Scheduler, SchedulerConfig, new_scheduler}
use aivtuber.Scheduler.Reachable.{Step, Reach}
use aivtuber.Ingress.Event.{EventEnvelope}
use aivtuber.Ingress.Control.{AuthenticatedControl, AuthenticatedControlCommand}
use aivtuber.Runtime.Data.{TokenArithmetic, JsonText, SecurityRuntime, AuditRecord}
use aivtuber.Runtime.Content
use aivtuber.Runtime.Control
use aivtuber.Runtime.Control.{PublicOutput}

pub data RuntimeCall {J F : Type 0} (json : JsonText J F) : Type 0 where
  admit_content_bytes : json.Raw → ℕ → RuntimeCall json
  pop_content : RuntimeCall json
  handle_control : AuthenticatedControlCommand J F → ℕ → RuntimeCall json
  handle_control_with_scheduler : AuthenticatedControlCommand J F → ℕ → Scheduler → RuntimeCall json
  authorize_memory_write : EventEnvelope J F → Option AuthenticatedControl → RuntimeCall json
  publish_text : String → RuntimeCall json
  record_public_output_decision : PublicOutput → RuntimeCall json
  record_generation_call :
      String → String → String → Option String → Option String → RuntimeCall json
  push_external_audit : AuditRecord → RuntimeCall json

module _ {J F : Type 0} (a : TokenArithmetic) (json : JsonText J F) (in_unit : F → Bool) where
  -- The runtime after a call.
  unfoldable pub runtime_call :
      SecurityRuntime J F a.Tokens → RuntimeCall json → SecurityRuntime J F a.Tokens
  unfolding Content.admit_content_bytes Content.pop_content Content.push_audit
      Control.handle_control Control.handle_control_with_scheduler Control.authorize_memory_write
      Control.publish_text Control.record_public_output_decision Control.record_generation_call
  runtime_call rt (RuntimeCall.admit_content_bytes raw now) =
      (Content.admit_content_bytes a json in_unit rt raw now).0
  runtime_call rt RuntimeCall.pop_content = (Content.pop_content a rt).0
  runtime_call rt (RuntimeCall.handle_control command at_ms) =
      (Control.handle_control a json rt command at_ms).0
  runtime_call rt (RuntimeCall.handle_control_with_scheduler command at_ms s) =
      (Control.handle_control_with_scheduler a json rt command at_ms s).0
  runtime_call rt (RuntimeCall.authorize_memory_write e authority) =
      (Control.authorize_memory_write a json rt e authority).0
  runtime_call rt (RuntimeCall.publish_text text) = (Control.publish_text a rt text).0
  runtime_call rt (RuntimeCall.record_public_output_decision out) =
      Control.record_public_output_decision a rt out
  runtime_call rt (RuntimeCall.record_generation_call id reason backend model version) =
      Control.record_generation_call a rt id reason backend model version
  runtime_call rt (RuntimeCall.push_external_audit r) = Content.push_audit a rt r

  -- The time of a call that moves the runtime's scheduler is a word.
  abbrev pub HasWordTime : RuntimeCall json → Type 0
  HasWordTime (RuntimeCall.handle_control command at_ms) = at_ms ≤ u64_max
  HasWordTime _ = Unit

  -- One step of the runtime: a call, or what the owner does with the scheduler that `scheduler_mut`
  -- lends, which is to call its operations or to put another scheduler in its place.
  pub data RuntimeStep (rt : SecurityRuntime J F a.Tokens)
      : SecurityRuntime J F a.Tokens → Type 0 where
    calls : (c : RuntimeCall json) → HasWordTime c → RuntimeStep rt (runtime_call rt c)
    uses : (s : Scheduler) → Step rt.scheduler s → RuntimeStep rt (record rt { scheduler = s })
    replaces :
        (config : SchedulerConfig) (s : Scheduler)
        → Reach (new_scheduler config) s
        → RuntimeStep rt (record rt { scheduler = s })

  pub data RuntimeReach (rt : SecurityRuntime J F a.Tokens)
      : SecurityRuntime J F a.Tokens → Type 0 where
    here : RuntimeReach rt rt
    next :
        {before after : SecurityRuntime J F a.Tokens}
        → RuntimeReach rt before
        → RuntimeStep before after
        → RuntimeReach rt after
