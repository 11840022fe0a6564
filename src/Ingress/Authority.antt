-- ===== src/Ingress/Authority.antt =====
-- crates/domain/src/control.rs: the authority of the commands that the local ingress mints.
use aivtuber.Common.{
  ◌≡◌, ◌↔◌, refl, arith, sym, ap, subst, inl, inr, String, Bool, true, none, some, List, string_eq,
  length, Bool-cases, Option-cases,
}
use aivtuber.Common.Map.{lookup, insert, lookup-insert}
use aivtuber.Scheduler.Data.{EventKind}
use aivtuber.Ingress.Event.{Capability, SecurityPlane, contains, singleton, validate}
use aivtuber.Ingress.Secret.{Byte, constant_time_eq, constant_time_eq_iff}
use aivtuber.Ingress.Control.{
  OperatorCommandInput, AuthenticatedControlCommand, ok, err, authentication_failed,
  action_not_allowlisted, capability_not_granted, invalid_command, LocalControlIngress,
  capability_for_action, command_of, authenticate,
}

contains-singleton : (c other : Capability) → (contains (singleton c) other ≡ true) ↔ (other ≡ c)
unfolding contains singleton
contains-singleton Capability.performer_mute other = ground arith
contains-singleton Capability.performer_stop other = ground arith
contains-singleton Capability.obs_control other = ground arith
contains-singleton Capability.avatar_control other = ground arith
contains-singleton Capability.memory_admin other = ground arith
contains-singleton Capability.tool_grant other = ground arith

module _ {J F : Type 0} (json_string : String → J) (in_unit : F → Bool) where
  -- What a command of an ingress may do.
  pub record IsScoped (ingress : LocalControlIngress) (input : OperatorCommandInput J)
      (presented : List Byte) (command : AuthenticatedControlCommand J F) : Type 0 where
    pub secret : ingress.secret ≡ presented
    pub capability : Capability
    pub allowlisted : capability_for_action input.action ≡ some capability
    pub granted : contains ingress.capabilities capability ≡ true
    pub minted : command ≡ command_of json_string ingress input capability
    pub valid : validate in_unit command.event ≡ none
    pub only :
        (c : Capability) → (contains command.authority.capabilities c ≡ true) ↔ (c ≡ capability)
    pub bearer :
        (command.authority.principal ≡ ingress.principal)
        × (command.authority.method ≡ ingress.method)
    pub claim :
        command.event.authorization
        ≡ some (record {
          principal = command.authority.principal;
          method = command.authority.method;
          capabilities = command.authority.capabilities;
        })
    pub origin :
        (command.event.source ≡ ingress.source)
        × (command.event.plane ≡ SecurityPlane.control)
        × (command.event.kind ≡ EventKind.operator_command)
    pub identity :
        (command.event.event_id ≡ input.event_id)
        × (command.event.correlation_id ≡ input.correlation_id)
        × (command.event.sequence ≡ input.sequence)
        × (command.event.observed_at ≡ input.observed_at)
    pub action : lookup "action" command.event.payload ≡ some (json_string input.action)

  command_of-IsScoped :
      (ingress : LocalControlIngress) (input : OperatorCommandInput J) (presented : List Byte)
      (c : Capability)
      → ingress.secret ≡ presented
      → capability_for_action input.action ≡ some c
      → contains ingress.capabilities c ≡ true
      → validate in_unit (command_of {F = F} json_string ingress input c).event ≡ none
      → IsScoped ingress input presented (command_of json_string ingress input c)
  unfolding command_of
  command_of-IsScoped ingress input presented c same listed granted valid = record {
    secret = same;
    capability = c;
    allowlisted = listed;
    granted = granted;
    minted = refl;
    valid = valid;
    only = contains-singleton c;
    bearer = (refl, refl);
    claim = refl;
    origin = (refl, refl, refl);
    identity = (refl, refl, refl, refl);
    action =
        let key : String = "action" in
        let found : lookup key (insert key (json_string input.action) input.payload)
            ≡ some (json_string input.action) =
          rw lookup-insert refl in
        found;
  }

  module _ (ingress : LocalControlIngress) (input : OperatorCommandInput J) (presented : List Byte)
      (command : AuthenticatedControlCommand J F)
      (len : length ingress.secret ≡ length presented) where
    authenticate-IsScoped :
        authenticate json_string in_unit ingress input presented ≡ ok command
        → IsScoped ingress input presented command
    unfolding authenticate
    authenticate-IsScoped h = elim (Bool-cases (constant_time_eq ingress.secret presented)) [
      | inr f ↦
          let no : authenticate json_string in_unit ingress input presented
              ≡ err authentication_failed =
            rw (f, authenticate) in
          cc (h, no)
      | inl t ↦ elim (Option-cases (capability_for_action input.action)) [
        | inl n ↦
            let no : authenticate json_string in_unit ingress input presented
                ≡ err action_not_allowlisted =
              rw (t, n, authenticate) in
            cc (h, no)
        | inr (c, a) ↦ elim (Bool-cases (contains ingress.capabilities c)) [
          | inr f ↦
              let no : authenticate json_string in_unit ingress input presented
                  ≡ err (capability_not_granted c) =
                rw (t, a, f, authenticate) in
              cc (h, no)
          | inl g ↦
              elim (Option-cases
                (validate in_unit (command_of json_string ingress input c).event)) [
                  | inr (e, v) ↦
                      let no : authenticate json_string in_unit ingress input presented
                          ≡ err (invalid_command e) =
                        rw (t, a, g, v, authenticate) in
                      cc (h, no)
                  | inl v ↦
                      let yes : authenticate json_string in_unit ingress input presented
                          ≡ ok (command_of json_string ingress input c) =
                        rw (t, a, g, v, authenticate) in
                      let same : command ≡ command_of json_string ingress input c = cc (h, yes) in
                      subst (IsScoped ingress input presented) (sym same) (
                        command_of-IsScoped ingress input presented c
                          ((constant_time_eq_iff ingress.secret presented len).0 t) a g v)
                ]
        ]
      ]
    ]

    authenticate-ok :
        IsScoped ingress input presented command
        → authenticate json_string in_unit ingress input presented ≡ ok command
    unfolding authenticate
    authenticate-ok h =
        let t = (constant_time_eq_iff ingress.secret presented len).1 h.secret in
        let v : validate in_unit (command_of json_string ingress input h.capability).event ≡ none =
          subst (λ (c : AuthenticatedControlCommand J F). validate in_unit c.event ≡ none) h.minted
            h.valid in
        rw (t, h.allowlisted, h.granted, v, authenticate) (ap ok (sym h.minted))

  -- Only the secret of the ingress mints authority: a command comes out exactly if the presented
  -- secret, of the right length, is the one of the ingress, the action is on the list, its
  -- capability is granted to the ingress and the event is valid. The authority of the command then
  -- has that capability and no other, for the principal and by the method of the ingress; the event
  -- claims the same authority, is an operator command of the control plane from the source of the
  -- ingress, has the identifiers, the sequence and the time of the input, and carries its action.
  pub authenticate_iff :
      (ingress : LocalControlIngress) (input : OperatorCommandInput J) (presented : List Byte)
      (command : AuthenticatedControlCommand J F)
      → length ingress.secret ≡ length presented
      → (authenticate json_string in_unit ingress input presented ≡ ok command)
        ↔ IsScoped ingress input presented command
  authenticate_iff ingress input presented command len = (
    authenticate-IsScoped ingress input presented command len,
    authenticate-ok ingress input presented command len,
  )
