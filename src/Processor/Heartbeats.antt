-- ===== src/Processor/Heartbeats.antt =====
-- The round that the agent makes over its clients from time to time
-- (`Processor::check_heartbeats` in src/cpp/processor/Processor.cpp).
use micro_xrce_dds_agent.Common.{
  ℕ, zero, suc, ◌+◌, ◌%◌, List, [], ◌∷◌, ◌++◌, none, some, is_some, ◌==◌, if◌then◌else◌,
}
use micro_xrce_dds_agent.Common.Map.{octets_eq, nat_eq, find, assign}
use micro_xrce_dds_agent.Common.Map as Map
use micro_xrce_dds_agent.Cdr.{Cdr}
use micro_xrce_dds_agent.Message.Header.{MessageHeader, default_header, header_size, subheader_size}
use micro_xrce_dds_agent.Message.Output
use micro_xrce_dds_agent.Message.Output.{OutputMessage, Submessage}
use micro_xrce_dds_agent.OutputStream.Types.{default_flags}
use micro_xrce_dds_agent.OutputStream.Reliable.{HeartbeatPayload}
use micro_xrce_dds_agent.Session.{Session}
use micro_xrce_dds_agent.Session.Output.{get_output_streams, fill_heartbeat}
use micro_xrce_dds_agent.SessionManager.{SessionManager, get_endpoint, destroy_session_of_client}
use micro_xrce_dds_agent.Object.Id.{clientkey_to_raw}
use micro_xrce_dds_agent.Client.Types.{status_ok}
use micro_xrce_dds_agent.Client.Proxy.{
  State, alive, dead, to_remove, ProxyClient, get_state, update_state,
}
use micro_xrce_dds_agent.Root.{ClientKey, Root, delete_client, get_next_client}
use micro_xrce_dds_agent.Processor.Types.{OutputPacket}

-- The submessage ids GET_INFO and HEARTBEAT.
abbrev pub get_info : ℕ
get_info = 2

abbrev pub heartbeat_id : ℕ
heartbeat_id = 11

-- `clientkey_to_raw` of a key, an array of four octets.
abbrev pub raw_key : ClientKey → ℕ
raw_key (a ∷ b ∷ c ∷ d ∷ []) = clientkey_to_raw a b c d
raw_key key = 0

-- What serializes the two payloads; the GET_INFO_Payload is always the same one.
pub record Payloads : Type 0 where
  pub heartbeat : HeartbeatPayload → Submessage
  pub heartbeat_size : ℕ
  pub get_info_payload : Submessage

module _ (c : Cdr) (World EndPoint : Type 0) where
  -- The agent, the packets given to the server, and the variables `header` and `destination`
  -- that the loop uses again for each client.
  pub record Round : Type 0 where
    pub root : Root c World
    pub sessions : SessionManager EndPoint
    pub sent : List (OutputPacket c EndPoint)
    pub header : MessageHeader
    pub destination : EndPoint

module _ (c : Cdr) where
  abbrev pub message_of : MessageHeader → ℕ → ℕ → Submessage → OutputMessage c
  message_of header size id submessage =
      (Output.append_submessage c id submessage default_flags (Output.create c header size)).1

module _ (c : Cdr) (payloads : Payloads) where
  -- The size of a heartbeat, with the header before any client's is put in.
  abbrev heartbeat_message_size : ℕ
  heartbeat_message_size =
      header_size c default_header 0 + subheader_size c 0 + payloads.heartbeat_size

module _ (c : Cdr) (payloads : Payloads) {EndPoint : Type 0} where
  -- `for (auto stream : client->session().get_output_streams())`.
  unfoldable pub send_heartbeats :
      EndPoint
      → MessageHeader
      → List ℕ
      → HeartbeatPayload
      → Session c
      → List (OutputPacket c EndPoint)
      → Session c × List (OutputPacket c EndPoint)
  send_heartbeats destination header [] heartbeat session sent = (session, sent)
  send_heartbeats destination header (stream ∷ streams) heartbeat session sent =
      let (rv, heartbeat', session') = fill_heartbeat c stream heartbeat session in
      let packet : OutputPacket c EndPoint = record {
        destination = destination;
        message =
            message_of c header (heartbeat_message_size c payloads) heartbeat_id
              (payloads.heartbeat heartbeat');
      } in
      send_heartbeats destination header streams heartbeat' session'
        (if rv then sent ++ (packet ∷ []) else sent)

module _ (c : Cdr) {World : Type 0} where
  -- The proxy that the loop's pointer refers to, in the map of the clients.
  abbrev pub store_client : ClientKey → ProxyClient c World → Root c World → Root c World
  store_client key p root = elim (find key root.clients) [
    | some old ↦ record root { clients = assign key p root.clients }
    | none ↦ root
  ]

  abbrev client_header : ProxyClient c World → MessageHeader → MessageHeader
  client_header p header = record header {
    session_id = p.representation.session_id;
    client_key = p.representation.client_key;
  }

module _ (c : Cdr) (payloads : Payloads) {World EndPoint : Type 0} ⦃q : Map.Eq EndPoint⦄ where
  -- The branch of a client that is alive and has an endpoint.
  unfoldable pub beat : ProxyClient c World → Round c World EndPoint → Round c World EndPoint
  beat p r =
      let header = client_header c p r.header in
      let heartbeat : HeartbeatPayload = record {
        stream_id = 0;
        first_unacked_seq_nr = 0;
        last_unacked_seq_nr = 0;
      } in
      let (session, sent) =
        send_heartbeats c payloads r.destination header (get_output_streams c p.session) heartbeat
          p.session r.sent in
      record r {
        root = store_client c p.representation.client_key (record p { session = session }) r.root;
        sent = sent;
        header = header;
      }

  -- The branch of a dead client: the third time it is to be removed, and every time it is asked
  -- for a sign of life. The size is that of the header before the client is put in.
  unfoldable pub knock : ℕ → ProxyClient c World → Round c World EndPoint → Round c World EndPoint
  knock now p r =
      let tries = (p.hard_liveliness_check_tries + 1) % 256 in
      let counted : ProxyClient c World = record p { hard_liveliness_check_tries = tries } in
      let header = client_header c p r.header in
      let size =
        header_size c r.header 0 + subheader_size c 0 + payloads.get_info_payload.serialized_size in
      let packet : OutputPacket c EndPoint = record {
        destination = r.destination;
        message = message_of c header size get_info payloads.get_info_payload;
      } in
      record r {
        root =
            store_client c p.representation.client_key
              (if tries == 3 then update_state c to_remove now counted else counted) r.root;
        sent = r.sent ++ (packet ∷ []);
        header = header;
      }

  -- The branch of a client that is to be removed.
  unfoldable pub remove : ProxyClient c World → Round c World EndPoint → Round c World EndPoint
  remove p r =
      let key = p.representation.client_key in
      let (status, root) = delete_client c key r.root in
      elim status [
        | status_ok ↦ record r {
          root = root;
          sessions = destroy_session_of_client r.sessions (raw_key key);
        }
        | _ ↦ record r { root = root }
      ]

  -- The round with the client as `get_state` has left it, and its endpoint if it has one.
  abbrev pub arrived : ProxyClient c World → Round c World EndPoint → Round c World EndPoint
  arrived p r =
      let key = p.representation.client_key in
      record r {
        root = store_client c key p r.root;
        destination = elim (get_endpoint r.sessions (raw_key key)) [
          | none ↦ r.destination
          | some e ↦ e
        ];
      }

  -- The body of the loop behind `get_state`.
  unfoldable pub check_in_state :
      ℕ → State → ProxyClient c World → Round c World EndPoint → Round c World EndPoint
  check_in_state now alive p r =
      if is_some (get_endpoint r.sessions (raw_key p.representation.client_key))
      then beat p (arrived p r)
      else arrived p r
  check_in_state now dead p r =
      if p.hard_liveliness_check then knock now p (arrived p r) else arrived p r
  check_in_state now to_remove p r =
      if p.hard_liveliness_check then remove p (arrived p r) else arrived p r

  unfoldable pub check_client :
      ℕ → ProxyClient c World → Round c World EndPoint → Round c World EndPoint
  check_client now p r = let (state, p') = get_state c now p in check_in_state now state p' r

  -- `while (root_.get_next_client(client))`, at most `fuel` times.
  unfoldable pub check_heartbeats : ℕ → ℕ → Round c World EndPoint → Round c World EndPoint
  check_heartbeats zero now r = r
  check_heartbeats (suc fuel) now r =
      let (client, root) = get_next_client c r.root in
      let moved : Round c World EndPoint = record r { root = root } in
      elim client [ none ↦ moved | some p ↦ check_heartbeats fuel now (check_client now p moved) ]
