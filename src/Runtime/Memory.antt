-- ===== src/Runtime/Memory.antt =====
-- crates/runtime/src/lib.rs: what the gate of memory writes permits.
use aivtuber.Common.{
  ◌≡◌, ◌≢◌, ◌⊎◌, ◌↔◌, refl, sym, ap, inl, inr, true, Option, none, some, string_eq, arith,
}
use mathlib.Core.Option.{some-injective}
use aivtuber.Common.Map.{lookup}
use aivtuber.Ingress.Event.{EventEnvelope, Capability, SecurityPlane, TrustLevel}
use aivtuber.Ingress.Control.{AuthenticatedControl}
use aivtuber.Runtime.Data.{
  TokenArithmetic, JsonText, SecurityRuntime, RuntimeError, RuntimeResult, ok, err, ControlOutcome,
  MemoryWriteDecision, MemoryWritePermit,
}
use aivtuber.Runtime.Data
use aivtuber.Runtime.Content.{push_audit}
use aivtuber.Runtime.Control.{
  payload_text, has_capability, authorize_memory_write, memory_decision, permit_of,
}

decision-cases :
    (d : MemoryWriteDecision)
    → (d ≡ Data.allowed_system_source) ⊎ ((d ≡ Data.allowed_memory_admin) ⊎ (d ≡ Data.denied))
decision-cases Data.allowed_system_source = inl refl
decision-cases Data.allowed_memory_admin = inr (inl refl)
decision-cases Data.denied = inr (inr refl)

module _ {J F : Type 0} (a : TokenArithmetic) (json : JsonText J F) where
  -- Who may write to the memory: the holder of that capability, or a trusted or half-trusted system
  -- source.
  abbrev pub MayWrite : EventEnvelope J F → Option AuthenticatedControl → Type 0
  MayWrite e authority =
      ((auth : AuthenticatedControl) × (authority ≡ some auth)
        × (has_capability auth Capability.memory_admin ≡ true))
      ⊎ ((e.plane ≡ SecurityPlane.system) × (e.trust_level ≢ TrustLevel.untrusted))

  decided_system :
      (e : EventEnvelope J F) (authority : Option AuthenticatedControl)
      → memory_decision a json e authority ≡ Data.allowed_system_source
      → MayWrite e authority
  unfolding memory_decision
  decided_system e authority h = inr (ground arith)

  decided_admin :
      (e : EventEnvelope J F) (authority : Option AuthenticatedControl)
      → memory_decision a json e authority ≡ Data.allowed_memory_admin
      → MayWrite e authority
  unfolding memory_decision
  decided_admin e none h = absurd (ground arith)
  decided_admin e (some auth) h = inl (auth, refl, ground arith)

  decided_denied :
      (e : EventEnvelope J F) (authority : Option AuthenticatedControl)
      → memory_decision a json e authority ≡ Data.denied
      → ¬ MayWrite e authority
  unfolding memory_decision
  decided_denied e none h may = ground arith
  decided_denied e (some auth) h may = ground arith

  -- The permit names the event, its source, its trust and its actor, and quotes the payload's text.
  pub record IsPermitOf (e : EventEnvelope J F) (decision : MemoryWriteDecision)
      (permit : MemoryWritePermit) : Type 0 where
    pub event_id : permit.event_id ≡ e.event_id
    pub source : permit.source ≡ e.source
    pub source_class : permit.source_class ≡ e.source_class
    pub trust_level : permit.trust_level ≡ e.trust_level
    pub actor_id : permit.actor_id ≡ e.actor_id
    pub decision_made : permit.decision ≡ decision
    pub source_claim :
        permit.source_claim
        ≡ (elim (lookup "text" e.payload) [ none ↦ none | some value ↦ json.as_str value ])

  permit_of_iff :
      (e : EventEnvelope J F) (decision : MemoryWriteDecision) (permit : MemoryWritePermit)
      → (permit ≡ permit_of a json e decision) ↔ IsPermitOf e decision permit
  unfolding payload_text
  permit_of_iff e decision permit = (
    λ same. record {
      event_id = ap (λ (m : MemoryWritePermit). m.event_id) same;
      source = ap (λ (m : MemoryWritePermit). m.source) same;
      source_class = ap (λ (m : MemoryWritePermit). m.source_class) same;
      trust_level = ap (λ (m : MemoryWritePermit). m.trust_level) same;
      actor_id = ap (λ (m : MemoryWritePermit). m.actor_id) same;
      decision_made = ap (λ (m : MemoryWritePermit). m.decision) same;
      source_claim = ap (λ (m : MemoryWritePermit). m.source_claim) same;
    },
    λ h i. record {
      event_id = h.event_id i;
      source = h.source i;
      source_class = h.source_class i;
      trust_level = h.trust_level i;
      actor_id = h.actor_id i;
      decision = h.decision_made i;
      source_claim = h.source_claim i;
    },
  )

  -- The gate of memory writes gives a permit exactly to the holder of the capability and to a system
  -- source that is not untrusted. The permit then has the identifier, the source and its class, the
  -- trust and the actor of this event, the text of its payload if that is a text, and the decision
  -- that the gate reports. In either case the scheduler and the mute are as they were.
  pub authorize_memory_write_iff :
      (rt : SecurityRuntime J F a.Tokens) (e : EventEnvelope J F)
      (authority : Option AuthenticatedControl) (permit : MemoryWritePermit)
      → (((authorize_memory_write a json rt e authority).2 ≡ some permit) ↔ (
          MayWrite e authority
          × IsPermitOf e (authorize_memory_write a json rt e authority).1 permit))
        × ((authorize_memory_write a json rt e authority).0.scheduler ≡ rt.scheduler)
        × ((authorize_memory_write a json rt e authority).0.muted ≡ rt.muted)
  unfolding authorize_memory_write push_audit
  authorize_memory_write_iff rt e authority permit = (
    elim (decision-cases (memory_decision a json e authority)) [
      | inl system ↦
          rw (system, authorize_memory_write)
            (permitted Data.allowed_system_source (decided_system e authority system))
      | inr (inl admin) ↦
          rw (admin, authorize_memory_write)
            (permitted Data.allowed_memory_admin (decided_admin e authority admin))
      | inr (inr shut) ↦
          rw (shut, authorize_memory_write)
            ((λ q. cc q), (λ m. absurd (decided_denied e authority shut m.0)))
    ],
    refl,
    refl,
  )
    where
      permitted :
          (decision : MemoryWriteDecision)
          → MayWrite e authority
          → (some (permit_of a json e decision) ≡ some permit)
            ↔ (MayWrite e authority × IsPermitOf e decision permit)
      permitted decision may =
          let same = permit_of_iff e decision permit in
          let given = permit_of a json e decision in
          (
            (λ q. (may, same.0 (sym (some-injective given permit q)))),
            (λ m. ap some (sym (same.1 m.1))),
          )
