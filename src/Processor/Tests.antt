-- ===== src/Processor/Tests.antt =====
-- A session with one reliable output stream, whose message is asked for again.
use micro_xrce_dds_agent.Common.{ℕ, ◌≡◌, refl, true, [], ◌∷◌, none, some, arith}
use micro_xrce_dds_agent.Common.Dict as Dict
use micro_xrce_dds_agent.Common.Map.{octets_eq, nat_eq, find}
use micro_xrce_dds_agent.Cdr.ListCdr.{list_cdr}
use micro_xrce_dds_agent.Message.Header.{default_header, default_subheader}
use micro_xrce_dds_agent.InputStream.Reliable.{AcknackPayload}
use micro_xrce_dds_agent.OutputStream.Reliable.{ReliableOutputStream}
use micro_xrce_dds_agent.OutputStream.Reliable.Window.{Window}
use micro_xrce_dds_agent.OutputStream.Tests.{message, taken_one, taken_one-Window}
use micro_xrce_dds_agent.Session
use micro_xrce_dds_agent.Session.{Session, is_reliable_stream}
use micro_xrce_dds_agent.SessionManager.{SessionManager, establish_session, get_endpoint}
use micro_xrce_dds_agent.Client.Proxy.{ProxyClient, uxr_hl}
use micro_xrce_dds_agent.Root.{ClientKey, given, get_client}
use micro_xrce_dds_agent.Root.Tests.{env, key, representation, client, empty}
use micro_xrce_dds_agent.Processor.Heartbeats.{Payloads, Round, raw_key}
use micro_xrce_dds_agent.Processor.Silence.{check_heartbeats_silent}
use micro_xrce_dds_agent.Processor.Rounds.{IsReady, heartbeats}
use micro_xrce_dds_agent.Processor.Clients.{
  Agent, ClientCodec, is_no_session, process_create_client_submessage,
}
use micro_xrce_dds_agent.Processor.Admission.{Serves, process_create_client_submessage-Serves}
use micro_xrce_dds_agent.Processor.Types.{Codec, InputPacket}
use micro_xrce_dds_agent.Processor.Acknack.{process_acknack_submessage}
use micro_xrce_dds_agent.Processor.Resend.{process_acknack_submessage-Window}

-- The first message of the stream 128 is missing at the client.
abbrev missing_one : AcknackPayload
missing_one = record { stream_id = 128; first_unacked_seq_num = 0; nack_high = 0; nack_low = 1 }

abbrev pub codec : Codec list_cdr
codec = record {
  get_create = λ m. (none, m);
  get_delete = λ m. (none, m);
  get_acknack = λ m. (some missing_one, m);
  get_heartbeat = λ m. (none, m);
  status = λ p. record { serialized_size = 0; bytes = [] };
  acknack = λ p. record { serialized_size = 0; bytes = [] };
}

abbrev pub packet : InputPacket list_cdr ℕ
packet = record {
  source = 7;
  message = record {
    buf = [];
    header = default_header;
    subheader = default_subheader;
    deserializer = list_cdr.reader [];
    valid_xrce_message = true;
  };
}

abbrev session : Session list_cdr
session =
    record (Session.create list_cdr
      (record { client_key = 1 ∷ 2 ∷ 3 ∷ 4 ∷ []; session_id = 1; mtu = 16 })) {
        reliable_ostreams = (128, taken_one) ∷ [];
      }

pub reliable : is_reliable_stream 128 ≡ true
unfolding is_reliable_stream
reliable = refl

present : Dict.find 128 session.reliable_ostreams ≡ some taken_one
unfolding Dict.find
present = refl

process_acknack_submessage-Window_example :
    let (rv, read_on, after, sent) = process_acknack_submessage list_cdr codec packet session in
    (rv ≡ true)
    × (sent ≡ record { destination = 7; message = message 0 } ∷ [])
    × (s' : ReliableOutputStream list_cdr) × (Dict.find 128 after.reliable_ostreams ≡ some s')
    × Window list_cdr message 0 1 1 s'
process_acknack_submessage-Window_example =
    process_acknack_submessage-Window list_cdr codec packet missing_one message 0 1 1 0 session
      taken_one refl reliable present taken_one-Window refl (omega arith) (omega arith)

abbrev payloads : Payloads
payloads = record {
  heartbeat = λ h. record { serialized_size = 0; bytes = [] };
  heartbeat_size = 0;
  get_info_payload = record { serialized_size = 0; bytes = [] };
}

-- A client that is to be removed when it is silent for 30 seconds.
abbrev watched : ProxyClient list_cdr ℕ
watched = record client { hard_liveliness_check = true }

abbrev pub nobody : SessionManager ℕ
nobody = record { endpoint_to_client_map = []; client_to_endpoint_map = [] }

-- A client before it, without the check.
abbrev other_key : ClientKey
other_key = 1 ∷ 2 ∷ 0 ∷ 9 ∷ []

abbrev other : ProxyClient list_cdr ℕ
other = record client { representation = record representation { client_key = other_key } }

abbrev round : Round list_cdr ℕ ℕ
round = record {
  root = record {
    clients = (other_key, other) ∷ (key, watched) ∷ [];
    current_client = some other_key;
  };
  sessions = establish_session nobody 7 16909060 1;
  sent = [];
  header = default_header;
  destination = 0;
}

held : get_client list_cdr key round.root ≡ some watched
unfolding get_client find
held = refl

round-IsReady : IsReady list_cdr payloads 3 round
unfolding find
round-IsReady = record {
  at = refl;
  entered = ((refl, (refl, tt)), (refl, (refl, tt)));
  enough = omega arith;
}

check_heartbeats_silent_example :
    let call : Round list_cdr ℕ ℕ → Round list_cdr ℕ ℕ =
      heartbeats list_cdr payloads 3 30000000000 0 in
    let after = call (call (call (call round))) in
    (get_client list_cdr key after.root ≡ none) × (get_endpoint after.sessions (raw_key key) ≡ none)
check_heartbeats_silent_example =
    check_heartbeats_silent list_cdr payloads watched round 3 30000000000 30000000000 30000000000
      30000000000 0 round-IsReady held refl refl refl refl

abbrev pub client_codec : ClientCodec list_cdr
client_codec = record {
  get_create_client = λ m. (some representation, m);
  status_agent_payload = λ status. record { serialized_size = 0; bytes = [] };
}

abbrev pub agent : Agent list_cdr ℕ ℕ
agent = record { root = empty; sessions = nobody; sent = [] }

outside : is_no_session packet.message.header.session_id ≡ true
outside = refl

plain : find uxr_hl (given representation) ≡ none
unfolding find
plain = refl

process_create_client_submessage-Serves_example :
    (after : Agent list_cdr ℕ ℕ) × (process_create_client_submessage list_cdr client_codec env 0 0
        packet agent
      ≡ some (true, after))
    × Serves list_cdr key 7 after
process_create_client_submessage-Serves_example =
    process_create_client_submessage-Serves list_cdr client_codec env 0 0 packet representation
      agent outside refl refl refl refl plain
