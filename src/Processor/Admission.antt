-- ===== src/Processor/Admission.antt =====
-- A client that asks to be created is found afterwards (src/cpp/processor/Processor.cpp).
use micro_xrce_dds_agent.Common.{
  ℕ, ◌≡◌, refl, ap, ◌∙◌, inl, inr, Bool, true, false, [], ◌∷◌, ◌++◌, none, some, ◌==◌, ==_refl,
  if_each, is_some, Option-cases,
}
use micro_xrce_dds_agent.Common.Map.{octets_beq, octets_eq, nat_eq, find}
use micro_xrce_dds_agent.Common.Map as Map
use micro_xrce_dds_agent.Cdr.{Cdr}
use micro_xrce_dds_agent.SessionManager.{get_client_key, get_endpoint, establish_session}
use micro_xrce_dds_agent.SessionManager.Consistency.{get_endpoint-establish_session}
use micro_xrce_dds_agent.Object.Id.{raw_to_clientkey}
use micro_xrce_dds_agent.Client.Types.{status_ok}
use micro_xrce_dds_agent.Client.Proxy.{ClientRepresentation, Environment, uxr_hl}
use micro_xrce_dds_agent.Root.{
  ClientKey, clientkey_invalid, xrce_cookie, xrce_version_major, given, get_client, delete_client,
}
use micro_xrce_dds_agent.Root.Lookup.{create_client-Admitted}
use micro_xrce_dds_agent.Processor.Types.{InputPacket}
use micro_xrce_dds_agent.Processor.Heartbeats.{raw_key}
use micro_xrce_dds_agent.Processor.Clients.{
  Agent, ClientCodec, is_no_session, close_other, establish, answer,
  process_create_client_submessage,
}

module _ (c : Cdr) {World EndPoint : Type 0} ⦃q : Map.Eq EndPoint⦄ where
  -- Deleting a client never fails in a way that stops the handler.
  close_other_done :
      (source : EndPoint) (representation : ClientRepresentation) (a : Agent c World EndPoint)
      → (close_other c source representation a).0 ≡ true
  unfolding close_other delete_client get_client
  close_other_done source representation a =
      elim (Option-cases (get_client_key a.sessions source)) [
        | inl absent ↦ rw (absent, close_other) refl
        | inr (raw, there) ↦
            rw (there, close_other)
              (if_each (λ (x : Bool × Agent c World EndPoint). x.0 ≡ true)
                (octets_beq representation.client_key (raw_to_clientkey raw)) _ _ refl
                (elim (Option-cases (find (raw_to_clientkey raw) a.root.clients)) [
                  | inl e ↦ rw (e, delete_client, get_client) refl
                  | inr (old, e) ↦ rw (e, delete_client, get_client) refl
                ]))
      ]

  -- What the agent has of a client.
  abbrev pub Serves : ClientKey → EndPoint → Agent c World EndPoint → Type 0
  Serves key source a =
      (is_some (get_client c key a.root) ≡ true)
      × (get_endpoint a.sessions (raw_key key) ≡ some source)

  -- A CREATE_CLIENT outside a session, with a valid key, the cookie and the version of the
  -- protocol and without the property of the hard liveliness check, ends with the client in the
  -- agent and with the source of the packet as the client's endpoint.
  pub process_create_client_submessage-Serves :
      (codec : ClientCodec c) (env : Environment World) (uninitialized now : ℕ)
      (packet : InputPacket c EndPoint) (representation : ClientRepresentation)
      (a : Agent c World EndPoint)
      → is_no_session packet.message.header.session_id ≡ true
      → (codec.get_create_client packet.message).0 ≡ some representation
      → octets_beq representation.client_key clientkey_invalid ≡ false
      → octets_beq representation.xrce_cookie xrce_cookie ≡ true
      → (representation.xrce_version_major == xrce_version_major) ≡ true
      → find uxr_hl (given representation) ≡ none
      → (after : Agent c World EndPoint) × (process_create_client_submessage c codec env
            uninitialized now packet a
          ≡ some (true, after))
        × Serves representation.client_key packet.source after
  unfolding process_create_client_submessage
  process_create_client_submessage-Serves codec env uninitialized now packet representation a
        outside read valid cookie version plain =
      let closed = (close_other c packet.source representation a).1 in
      let (root, made, there) =
        create_client-Admitted c env uninitialized now representation closed.root valid cookie
          version plain in
      let key = representation.client_key in
      let after : Agent c World EndPoint = record {
        root = root;
        sessions =
            establish_session closed.sessions packet.source (raw_key key) representation.session_id;
        sent =
            closed.sent
            ++ (answer c codec env uninitialized now packet representation status_ok ∷ []);
      } in
      (
        after,
        rw (outside, process_create_client_submessage)
            (rw read (
              rw (close_other_done packet.source representation a)
                (ap (establish c codec env uninitialized now packet representation closed) made))),
        (
          there,
          get_endpoint-establish_session closed.sessions packet.source (raw_key key)
                representation.session_id (raw_key key)
              ∙ rw (==_refl (raw_key key)) refl,
        ),
      )
