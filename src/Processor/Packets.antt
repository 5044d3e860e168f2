-- ===== src/Processor/Packets.antt =====
-- `Processor::process_input_packet` in src/cpp/processor/Processor.cpp.
pub mod Tests
use Prim.Native.Nat.{bit_and}
use micro_xrce_dds_agent.Common.{
  ℕ, zero, suc, ◌+◌, Bool, List, [], ◌∷◌, ◌++◌, Option, none, some, ltb, ◌==◌, if◌then◌else◌,
}
use micro_xrce_dds_agent.Common.Map as Map
use micro_xrce_dds_agent.Cdr.{Cdr}
use micro_xrce_dds_agent.Message.Header.{MessageHeader, header_size, subheader_size}
use micro_xrce_dds_agent.Message.Input.{prepare_next_submessage}
use micro_xrce_dds_agent.InputStream.Reliable.{AcknackPayload}
use micro_xrce_dds_agent.OutputStream.Types.{streamid_none}
use micro_xrce_dds_agent.Session.{is_reliable_stream}
use micro_xrce_dds_agent.Session.Input.{push_input_message, pop_input_message, fill_acknack}
use micro_xrce_dds_agent.SessionManager.{get_client_key}
use micro_xrce_dds_agent.Object.Id.{raw_to_clientkey}
use micro_xrce_dds_agent.Client.Types.{status_ok}
use micro_xrce_dds_agent.Client.Proxy.{alive, ProxyClient, update_state}
use micro_xrce_dds_agent.Root.{ClientKey, clientkey_invalid, get_client}
use micro_xrce_dds_agent.Processor.Types.{InputPacket, OutputPacket}
use micro_xrce_dds_agent.Processor.Heartbeats.{message_of, store_client, get_info}
use micro_xrce_dds_agent.Processor.Clients.{Agent, is_no_session, process_create_client_submessage}
use micro_xrce_dds_agent.Processor.Requests.{Handling, status_id, acknack_id, objk_client}
use micro_xrce_dds_agent.Processor.Info.{process_get_info_packet}
use micro_xrce_dds_agent.Processor.Reading.{Started}
use micro_xrce_dds_agent.Processor.Dispatch.{
  Setting, Turn, with_message, process_input_message, create_client_id, delete_id,
}

module _ (c : Cdr) {World EndPoint : Type 0} where
  abbrev created : Option (Bool × Agent c World EndPoint) → Option (Agent c World EndPoint)
  created none = none
  created (some (rv, a)) = some a

  abbrev pub send : OutputPacket c EndPoint → Agent c World EndPoint → Agent c World EndPoint
  send packet a = record a { sent = a.sent ++ (packet ∷ []) }

module _ (c : Cdr) {World EndPoint : Type 0} ⦃q : Map.Eq EndPoint⦄ (fuel : ℕ)
    (x : Setting c World) where
  -- A packet that belongs to no session.
  unfoldable pub outside_of_sessions :
      InputPacket c EndPoint → Agent c World EndPoint → Option (Agent c World EndPoint)
  outside_of_sessions packet a =
      let (more, message) = prepare_next_submessage c packet.message in
      let read_on : InputPacket c EndPoint = record packet { message = message } in
      let id = message.subheader.submessage_id in
      if more
      then (if id == create_client_id
          then created c (
              process_create_client_submessage c x.client_codec x.environment x.uninitialized x.now
                read_on a)
          else if id == get_info
          then some (send c (process_get_info_packet c x.info_codec read_on a.sessions).1 a)
          else some a)
      else some a

  -- The key that a packet of a session stands for.
  unfoldable pub key_of : InputPacket c EndPoint → Agent c World EndPoint → ClientKey
  key_of packet a =
      if ltb packet.message.header.session_id 128
      then packet.message.header.client_key
      else (elim (get_client_key a.sessions packet.source) [
        | none ↦ clientkey_invalid
        | some raw ↦ raw_to_clientkey raw
      ])

  -- A packet of a session that the agent does not have, of a client that was deleted perhaps.
  unfoldable pub of_unknown_client :
      InputPacket c EndPoint → Agent c World EndPoint → Agent c World EndPoint
  of_unknown_client packet a =
      let (more, message) = prepare_next_submessage c packet.message in
      let read_on : InputPacket c EndPoint = record packet { message = message } in
      let id = message.subheader.submessage_id in
      if more
      then (if id == delete_id
          then (elim (x.codec.get_delete message).0 [
            | none ↦ a
            | some p ↦
                if bit_and p.object_id.1 15 == objk_client
                then (let payload = x.codec.status (record {
                  request_id = p.request_id;
                  object_id = p.object_id;
                  status = status_ok;
                }) in
                    send c
                      (record {
                        destination = packet.source;
                        message =
                            message_of c message.header
                              (header_size c message.header 0
                                + subheader_size c 0
                                + payload.serialized_size)
                              status_id payload;
                      })
                      a)
                else a
          ])
          else if id == get_info
          then send c (process_get_info_packet c x.info_codec read_on a.sessions).1 a
          else a)
      else a

  -- `while (session.pop_input_message(…)) process_input_message(…)`.
  unfoldable pub process_messages : ℕ → ℕ → Turn c World EndPoint → Option (Turn c World EndPoint)
  process_messages zero stream_id turn = none
  process_messages (suc rounds) stream_id (h, started) =
      let (found, s) = pop_input_message c stream_id h.client.session in
      let popped = record h { client = record h.client { session = s } } in
      elim found [
        | none ↦ some (popped, started)
        | some message ↦
            (elim (process_input_message c fuel x fuel (with_message message popped, started)) [
              | none ↦ none
              | some turn ↦ process_messages rounds stream_id turn
            ])
      ]

  -- The ACKNACK for a reliable stream.
  unfoldable pub acknowledge : MessageHeader → Handling c World EndPoint → Handling c World EndPoint
  acknowledge header h =
      let empty : AcknackPayload = record {
        stream_id = 0;
        first_unacked_seq_num = 0;
        nack_high = 0;
        nack_low = 0;
      } in
      let (filled, s) = fill_acknack c header.stream_id empty h.client.session in
      let acknack_header : MessageHeader = record header {
        stream_id = streamid_none;
        sequence_nr = 0;
      } in
      let payload = x.codec.acknack (record filled { stream_id = header.stream_id }) in
      record h {
        client = record h.client { session = s };
        agent =
            send c
              (record {
                destination = h.packet.source;
                message =
                    message_of c acknack_header
                      (header_size c acknack_header 0
                        + subheader_size c 0
                        + payload.serialized_size)
                      acknack_id payload;
              })
              h.agent;
      }

  -- A packet of a client that the agent has. The proxy is the one in the map as long as it is
  -- there.
  unfoldable pub of_client :
      ClientKey
      → ProxyClient c World
      → InputPacket c EndPoint
      → Agent c World EndPoint × List Started
      → Option (Agent c World EndPoint × List Started)
  of_client key client packet (a, started) =
      let header = packet.message.header in
      let client' = update_state c alive x.now client in
      let (rv, s) =
        push_input_message c x.config packet.message header.stream_id header.sequence_nr
          client'.session in
      elim (process_messages fuel header.stream_id
        (record { agent = a; client = record client' { session = s }; packet = packet }, started)) [
          | none ↦ none
          | some (h, started') ↦
              (let h' = if is_reliable_stream header.stream_id then acknowledge header h else h in
                some
                  (record h'.agent { root = store_client c key h'.client h'.agent.root }, started'))
        ]

  unfoldable pub process_input_packet :
      InputPacket c EndPoint
      → Agent c World EndPoint × List Started
      → Option (Agent c World EndPoint × List Started)
  process_input_packet packet (a, started) =
      if is_no_session packet.message.header.session_id
      then (elim (outside_of_sessions packet a) [ none ↦ none | some a' ↦ some (a', started) ])
      else (elim (get_client c (key_of packet a) a.root) [
        | none ↦ some (of_unknown_client packet a, started)
        | some client ↦ of_client (key_of packet a) client packet (a, started)
      ])
