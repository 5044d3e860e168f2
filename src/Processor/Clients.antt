-- ===== src/Processor/Clients.antt =====
-- Clients that come (src/cpp/processor/Processor.cpp).
use micro_xrce_dds_agent.Common.{
  ℕ, ◌+◌, Bool, true, false, ◌||◌, List, [], ◌∷◌, ◌++◌, Option, none, some, ◌==◌, if◌then◌else◌,
}
use micro_xrce_dds_agent.Common.Map.{octets_beq}
use micro_xrce_dds_agent.Common.Map as Map
use micro_xrce_dds_agent.Cdr.{Cdr}
use micro_xrce_dds_agent.Message.Header.{MessageHeader, header_size, subheader_size}
use micro_xrce_dds_agent.Message.Input.{InputMessage}
use micro_xrce_dds_agent.Message.Output.{Submessage}
use micro_xrce_dds_agent.SessionManager.{
  SessionManager, establish_session, destroy_session_of_endpoint, get_client_key,
}
use micro_xrce_dds_agent.Object.Id.{raw_to_clientkey}
use micro_xrce_dds_agent.Client.Types.{StatusValue, status_ok, status_err_unknown_reference}
use micro_xrce_dds_agent.Client.Proxy.{ClientRepresentation, Environment}
use micro_xrce_dds_agent.Root.{Root, create_client, delete_client}
use micro_xrce_dds_agent.Processor.Types.{InputPacket, OutputPacket}
use micro_xrce_dds_agent.Processor.Heartbeats.{raw_key, message_of}

-- The submessage id STATUS_AGENT.
abbrev pub status_agent : ℕ
status_agent = 4

-- SESSIONID_NONE_WITH_CLIENT_KEY and SESSIONID_NONE_WITHOUT_CLIENT_KEY.
abbrev pub is_no_session : ℕ → Bool
is_no_session session_id = (session_id == 0) || (session_id == 0x80)

-- Reading a CREATE_CLIENT_Payload, with the message read on, and serializing a
-- STATUS_AGENT_Payload, which holds the result and the constant representation of the agent.
pub record ClientCodec (c : Cdr) : Type 0 where
  pub get_create_client : InputMessage c → Option ClientRepresentation × InputMessage c
  pub status_agent_payload : StatusValue → Submessage

module _ (c : Cdr) (World EndPoint : Type 0) where
  -- The agent, its sessions and the packets given to the server.
  pub record Agent : Type 0 where
    pub root : Root c World
    pub sessions : SessionManager EndPoint
    pub sent : List (OutputPacket c EndPoint)

module _ (c : Cdr) {World EndPoint : Type 0} ⦃q : Map.Eq EndPoint⦄ where
  -- Another client at the source of the packet is deleted first. False if that fails.
  unfoldable pub close_other :
      EndPoint → ClientRepresentation → Agent c World EndPoint → Bool × Agent c World EndPoint
  close_other source representation a = elim (get_client_key a.sessions source) [
    | none ↦ (true, a)
    | some raw ↦
        if octets_beq representation.client_key (raw_to_clientkey raw)
        then (true, a)
        else (let (status, root) = delete_client c (raw_to_clientkey raw) a.root in
            let sessions = destroy_session_of_endpoint a.sessions source in
            elim status [
              | status_ok ↦ (true, record a { root = root; sessions = sessions })
              | status_err_unknown_reference ↦ (true, record a { root = root; sessions = sessions })
              | _ ↦ (false, record a { root = root })
            ])
  ]

  module _ (codec : ClientCodec c) (env : Environment World) (uninitialized now : ℕ) where
    -- The answer to the request, with the client's session id in the header of the message.
    abbrev pub answer :
        InputPacket c EndPoint → ClientRepresentation → StatusValue → OutputPacket c EndPoint
    answer packet representation status =
        let header : MessageHeader = record packet.message.header {
          session_id = representation.session_id;
        } in
        let payload = codec.status_agent_payload status in
        record {
          destination = packet.source;
          message =
              message_of c header
                (header_size c header 0 + subheader_size c 0 + payload.serialized_size) status_agent
                payload;
        }

    abbrev pub establish :
        InputPacket c EndPoint
        → ClientRepresentation
        → Agent c World EndPoint
        → Option (StatusValue × Root c World)
        → Option (Bool × Agent c World EndPoint)
    establish packet representation a none = none
    establish packet representation a (some (status, root)) =
        let established =
          establish_session a.sessions packet.source (raw_key representation.client_key)
            representation.session_id in
        some (
          true,
          record {
            root = root;
            sessions = elim status [ status_ok ↦ established | _ ↦ a.sessions ];
            sent = a.sent ++ (answer packet representation status ∷ []);
          },
        )

    -- `none` if the constructor of the client throws. The message is not read afterwards.
    unfoldable pub process_create_client_submessage :
        InputPacket c EndPoint → Agent c World EndPoint → Option (Bool × Agent c World EndPoint)
    process_create_client_submessage packet a =
        if is_no_session packet.message.header.session_id
        then elim (codec.get_create_client packet.message).0 [
          | none ↦ some (false, a)
          | some representation ↦
              (let (rv, closed) = close_other packet.source representation a in
                if rv
                then establish packet representation closed
                    (create_client c env uninitialized now representation closed.root)
                else some (false, closed))
        ]
        else some (false, a)
