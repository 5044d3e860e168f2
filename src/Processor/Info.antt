-- ===== src/Processor/Info.antt =====
-- Answering GET_INFO and TIMESTAMP (src/cpp/processor/Processor.cpp). The payload INFO has the
-- constants of the agent and what stands in an InfoPayload.
use micro_xrce_dds_agent.Common.{
  ℕ, ◌+◌, ◌/◌, ◌%◌, ◌^◌, Bool, true, false, List, [], ◌∷◌, ◌++◌, Option, none, some,
}
use micro_xrce_dds_agent.Common.Map as Map
use micro_xrce_dds_agent.Cdr.{Cdr}
use micro_xrce_dds_agent.Message.Header.{MessageHeader, default_header, header_size, subheader_size}
use micro_xrce_dds_agent.Message.Input.{InputMessage}
use micro_xrce_dds_agent.Message.Output.{OutputMessage, Submessage}
use micro_xrce_dds_agent.Message.Output
use micro_xrce_dds_agent.OutputStream.Types.{default_flags, streamid_none}
use micro_xrce_dds_agent.Session.{Config}
use micro_xrce_dds_agent.Session.Output.{push_output_submessage, get_next_output_message}
use micro_xrce_dds_agent.SessionManager.{SessionManager, get_client_key}
use micro_xrce_dds_agent.Object.Id.{ObjectId}
use micro_xrce_dds_agent.Processor.Types.{InputPacket, OutputPacket}
use micro_xrce_dds_agent.Processor.Requests.{Handling}

-- The submessage ids INFO and TIMESTAMP_REPLY.
abbrev pub info_id : ℕ
info_id = 6

abbrev pub timestamp_reply_id : ℕ
timestamp_reply_id = 15

pub record GetInfoPayload : Type 0 where
  pub request_id : List ℕ
  pub object_id : ObjectId

pub record InfoPayload : Type 0 where
  pub request_id : List ℕ
  pub object_id : ObjectId
  pub implementation_status : ℕ

-- `Time_t`: the octets of an `int32_t` and a `uint32_t`, as numbers.
pub record Time : Type 0 where
  pub seconds : ℕ
  pub nanoseconds : ℕ

pub record TimestampReply : Type 0 where
  pub receive_timestamp : Time
  pub originate_timestamp : Time
  pub transmit_timestamp : Time

-- `get_epoch_time`, of the clock's nanoseconds.
unfoldable pub get_epoch_time : ℕ → Time
get_epoch_time now = record { seconds = now / 1000000000 % 2 ^ 32; nanoseconds = now % 1000000000 }

-- Reading the two payloads. What is left of a GET_INFO_Payload that cannot be read is used.
pub record InfoCodec (c : Cdr) : Type 0 where
  pub get_get_info : InputMessage c → GetInfoPayload × InputMessage c
  pub get_timestamp : InputMessage c → Option Time × InputMessage c
  pub info : InfoPayload → Submessage
  pub timestamp_reply : TimestampReply → Submessage

-- Whether the agent has a session at the source of a packet.
abbrev known : Option ℕ → ℕ
known none = 0
known (some key) = 1

module _ (c : Cdr) (codec : InfoCodec c) where
  -- A message with an INFO, and what `append_submessage` returns.
  abbrev pub info_message : MessageHeader → GetInfoPayload → ℕ → Bool × OutputMessage c
  info_message header asked implementation_status =
      let payload = codec.info (record {
        request_id = asked.request_id;
        object_id = asked.object_id;
        implementation_status = implementation_status;
      }) in
      Output.append_submessage c info_id payload default_flags (
        Output.create c header
          (header_size c header 0 + subheader_size c 0 + payload.serialized_size))

module _ (c : Cdr) (codec : InfoCodec c) {EndPoint : Type 0} ⦃q : Map.Eq EndPoint⦄ where
  -- `process_get_info_packet` for a client, known or unknown.
  unfoldable pub process_get_info_packet :
      InputPacket c EndPoint → SessionManager EndPoint → Bool × OutputPacket c EndPoint
  process_get_info_packet packet sessions =
      let (asked, message) = codec.get_get_info packet.message in
      let (rv, answer) =
        info_message c codec packet.message.header asked
          (known (get_client_key sessions packet.source)) in
      (rv, record { destination = packet.source; message = answer })

module _ (c : Cdr) (codec : InfoCodec c) {World EndPoint : Type 0} where
  unfoldable pub process_get_info_submessage :
      Handling c World EndPoint → Bool × Handling c World EndPoint
  process_get_info_submessage h =
      let (asked, message) = codec.get_get_info h.packet.message in
      let header : MessageHeader = record default_header {
        session_id = h.client.representation.session_id;
        client_key = h.client.representation.client_key;
      } in
      let (rv, answer) = info_message c codec header asked 1 in
      let packet : OutputPacket c EndPoint = record {
        destination = h.packet.source;
        message = answer;
      } in
      (
        rv,
        record h {
          agent = record h.agent { sent = h.agent.sent ++ (packet ∷ []) };
          packet = record h.packet { message = message };
        },
      )

  -- The two arguments behind the configuration are what the clock says at the two calls.
  unfoldable pub process_timestamp_submessage :
      ℕ → Config → ℕ → ℕ → Handling c World EndPoint → Option (Bool × Handling c World EndPoint)
  process_timestamp_submessage fuel config received sending h =
      let (asked, message) = codec.get_timestamp h.packet.message in
      let read_on = record h { packet = record h.packet { message = message } } in
      elim asked [
        | none ↦ some (false, read_on)
        | some timestamp ↦
            (let reply : TimestampReply = record {
              receive_timestamp = get_epoch_time received;
              originate_timestamp = timestamp;
              transmit_timestamp = get_epoch_time sending;
            } in
              elim (push_output_submessage c fuel config streamid_none timestamp_reply_id
                (codec.timestamp_reply reply) h.client.session) [
                  | none ↦ none
                  | some (rv, s) ↦
                      (let (found, s') = get_next_output_message c streamid_none s in
                        let with_session = record read_on {
                          client = record h.client { session = s' };
                        } in
                        elim found [
                          | none ↦ some (true, with_session)
                          | some taken ↦ (elim taken [
                            | none ↦ none
                            | some m ↦ some (
                              true,
                              record with_session {
                                agent = record h.agent {
                                  sent =
                                      h.agent.sent
                                      ++ (record { destination = h.packet.source; message = m }
                                          ∷ []);
                                };
                              },
                            )
                          ])
                        ])
                ])
      ]
