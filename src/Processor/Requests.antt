-- ===== src/Processor/Requests.antt =====
-- The handlers that answer through the streams of the session: CREATE, DELETE, HEARTBEAT, RESET
-- and FRAGMENT (src/cpp/processor/Processor.cpp).
use Prim.Native.Nat.{bit_and}
use micro_xrce_dds_agent.Common.{
  ℕ, zero, suc, Bool, true, false, List, [], ◌∷◌, ◌++◌, Option, none, some, ltb, ◌==◌,
  if◌then◌else◌,
}
use micro_xrce_dds_agent.Common.Map as Map
use micro_xrce_dds_agent.Cdr.{Cdr}
use micro_xrce_dds_agent.Message.Input.{InputMessage}
use micro_xrce_dds_agent.Message.Output.{Submessage}
use micro_xrce_dds_agent.InputStream.Reliable.{AcknackPayload}
use micro_xrce_dds_agent.OutputStream.Types.{streamid_none}
use micro_xrce_dds_agent.Session
use micro_xrce_dds_agent.Session.{Session, Config, is_reliable_stream, streamid_builtin_reliable}
use micro_xrce_dds_agent.Session.Input.{update_from_heartbeat, fill_acknack}
use micro_xrce_dds_agent.Session.Output.{push_output_submessage, get_next_output_message}
use micro_xrce_dds_agent.SessionManager.{destroy_session_of_endpoint}
use micro_xrce_dds_agent.Object.{Middleware}
use micro_xrce_dds_agent.Client.Types.{status_ok, CreationMode}
use micro_xrce_dds_agent.Client.Objects as Objects
use micro_xrce_dds_agent.Client.Proxy.{ProxyClient}
use micro_xrce_dds_agent.Root.{delete_client}
use micro_xrce_dds_agent.Processor.Types.{Codec, InputPacket, OutputPacket, DeletePayload}
use micro_xrce_dds_agent.Processor.Clients.{Agent}

-- The submessage ids STATUS and ACKNACK.
abbrev pub status_id : ℕ
status_id = 5

abbrev pub acknack_id : ℕ
acknack_id = 10

-- FLAG_REUSE, FLAG_REPLACE and OBJK_CLIENT.
abbrev pub flag_reuse : ℕ
flag_reuse = 2

abbrev pub flag_replace : ℕ
flag_replace = 4

abbrev pub objk_client : ℕ
objk_client = 14

-- `0 < (flags & flag)`.
abbrev pub has_flag : ℕ → ℕ → Bool
has_flag flag flags = ltb 0 (bit_and flags flag)

-- The stream that an answer takes: STREAMID_BUILTIN_RELIABLE or STREAMID_BUILTIN_BEST_EFFORTS.
abbrev pub stream_kind : ℕ → ℕ
stream_kind stream_id = if is_reliable_stream stream_id then streamid_builtin_reliable else 1

module _ (c : Cdr) (World EndPoint : Type 0) where
  -- What a handler works on: the agent, the client's proxy, which the handler holds by a pointer
  -- of its own, and the packet with the message that it reads on.
  pub record Handling : Type 0 where
    pub agent : Agent c World EndPoint
    pub client : ProxyClient c World
    pub packet : InputPacket c EndPoint

module _ (c : Cdr) {EndPoint : Type 0} where
  -- `while (get_next_output_message(…)) push_output_packet(…)`, at most `fuel` times; `none` if
  -- the fuel has run out or a stream has thrown.
  unfoldable pub send_all :
      ℕ
      → EndPoint
      → ℕ
      → Session c
      → List (OutputPacket c EndPoint)
      → Option (Session c × List (OutputPacket c EndPoint))
  send_all zero destination stream_id s sent = none
  send_all (suc fuel) destination stream_id s sent =
      let (found, s') = get_next_output_message c stream_id s in
      elim found [
        | none ↦ some (s', sent)
        | some taken ↦ elim taken [
          | none ↦ none
          | some message ↦
              send_all fuel destination stream_id s'
                (sent ++ (record { destination = destination; message = message } ∷ []))
        ]
      ]

module _ (c : Cdr) {World EndPoint : Type 0} ⦃q : Map.Eq EndPoint⦄ (m : Middleware World)
    (codec : Codec c) (fuel : ℕ) (config : Config) where
  abbrev with_session :
      Handling c World EndPoint
      → Session c × List (OutputPacket c EndPoint)
      → Handling c World EndPoint
  with_session h (s, sent) = record h {
    agent = record h.agent { sent = sent };
    client = record h.client { session = s };
  }

  -- `push_output_submessage` on a stream, and everything that the stream has then to be sent.
  unfoldable pub answer_on :
      ℕ → ℕ → Submessage → Handling c World EndPoint → Option (Handling c World EndPoint)
  answer_on stream_id id submessage h =
      elim (push_output_submessage c fuel config stream_id id submessage h.client.session) [
        | none ↦ none
        | some (rv, s) ↦ elim (send_all c fuel h.packet.source stream_id s h.agent.sent) [
          | none ↦ none
          | some left ↦ some (with_session h left)
        ]
      ]

  abbrev pub finished :
      Bool → Option (Handling c World EndPoint) → Option (Bool × Handling c World EndPoint)
  finished rv none = none
  finished rv (some h) = some (rv, h)

  abbrev read_on : InputMessage c → Handling c World EndPoint → Handling c World EndPoint
  read_on message h = record h { packet = record h.packet { message = message } }

  -- The payload that cannot be read is passed over without an answer, and `rv` is true.
  unfoldable pub process_create_submessage :
      Handling c World EndPoint → Option (Bool × Handling c World EndPoint)
  process_create_submessage h =
      let mode : CreationMode = record {
        reuse = has_flag flag_reuse h.packet.message.subheader.flags;
        replace = has_flag flag_replace h.packet.message.subheader.flags;
      } in
      let (payload, message) = codec.get_create h.packet.message in
      elim payload [
        | none ↦ some (true, read_on message h)
        | some p ↦
            (let (status, store) =
                Objects.create_object m mode p.object_id p.object_representation h.client.store in
              finished true (
                answer_on (stream_kind h.packet.message.header.stream_id) status_id
                  (codec.status (record {
                    request_id = p.request_id;
                    object_id = p.object_id;
                    status = status;
                  }))
                  (record (read_on message h) { client = record h.client { store = store } })))
      ]

  -- The branch of the client itself. `Root::delete_client` releases the client's objects, which
  -- are those of the handler's proxy.
  unfoldable pub delete_own_client :
      DeletePayload → Handling c World EndPoint → Option (Handling c World EndPoint)
  delete_own_client p h =
      let (status, root) = delete_client c h.client.representation.client_key h.agent.root in
      let closed = destroy_session_of_endpoint h.agent.sessions h.packet.source in
      let released = Objects.release m h.client.store in
      answer_on streamid_none status_id
        (codec.status
          (record { request_id = p.request_id; object_id = p.object_id; status = status }))
        (record h {
          agent = record h.agent {
            root = root;
            sessions = elim status [ status_ok ↦ closed | _ ↦ h.agent.sessions ];
          };
          client = record h.client {
            store = elim status [ status_ok ↦ released | _ ↦ h.client.store ];
          };
        })

  unfoldable pub process_delete_submessage :
      Handling c World EndPoint → Option (Bool × Handling c World EndPoint)
  process_delete_submessage h =
      let (payload, message) = codec.get_delete h.packet.message in
      elim payload [
        | none ↦ some (false, read_on message h)
        | some p ↦
            if bit_and p.object_id.1 15 == objk_client
            then finished true (delete_own_client p (read_on message h))
            else (let (status, store) = Objects.delete_object m p.object_id h.client.store in
                finished true (
                  answer_on (stream_kind h.packet.message.header.stream_id) status_id
                    (codec.status (record {
                      request_id = p.request_id;
                      object_id = p.object_id;
                      status = status;
                    }))
                    (record (read_on message h) { client = record h.client { store = store } })))
      ]

  -- The answer goes out if the stream of messages without a stream has one, which need not be
  -- this one.
  unfoldable pub process_heartbeat_submessage :
      Handling c World EndPoint → Option (Bool × Handling c World EndPoint)
  process_heartbeat_submessage h =
      let (payload, message) = codec.get_heartbeat h.packet.message in
      elim payload [
        | none ↦ some (false, read_on message h)
        | some heartbeat ↦
            (let told =
                update_from_heartbeat c heartbeat.stream_id heartbeat.first_unacked_seq_nr
                  heartbeat.last_unacked_seq_nr h.client.session in
              let empty : AcknackPayload = record {
                stream_id = 0;
                first_unacked_seq_num = 0;
                nack_high = 0;
                nack_low = 0;
              } in
              let (filled, s) = fill_acknack c heartbeat.stream_id empty told in
              let acknack : AcknackPayload = record filled { stream_id = heartbeat.stream_id } in
              elim (push_output_submessage c fuel config streamid_none acknack_id
                (codec.acknack acknack) s) [
                  | none ↦ none
                  | some (rv, s') ↦
                      (let (found, s'') = get_next_output_message c streamid_none s' in
                        let sent = h.agent.sent in
                        elim found [
                          | none ↦ some (true, with_session (read_on message h) (s'', sent))
                          | some taken ↦ elim taken [
                            | none ↦ none
                            | some m ↦ some (
                              true,
                              with_session (read_on message h) (
                                s'',
                                sent
                                    ++ (record { destination = h.packet.source; message = m } ∷ []),
                              ),
                            )
                          ]
                        ])
                ])
      ]

  unfoldable pub process_reset_submessage :
      Handling c World EndPoint → Option (Bool × Handling c World EndPoint)
  process_reset_submessage h =
      some
        (true, record h { client = record h.client { session = Session.reset c h.client.session } })
