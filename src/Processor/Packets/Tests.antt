-- ===== src/Processor/Packets/Tests.antt =====
-- A client that deletes itself beside another one, and packets of a client that the agent has and
-- of one that it does not have.
use micro_xrce_dds_agent.Common.{ℕ, suc, ◌≡◌, refl, true, false, List, [], ◌∷◌, Option, none, some}
use micro_xrce_dds_agent.Common.Map.{octets_eq, nat_eq, find}
use micro_xrce_dds_agent.Cdr.ListCdr.{list_cdr}
use micro_xrce_dds_agent.Message.Header.{default_header, default_subheader}
use micro_xrce_dds_agent.SessionManager.{establish_session}
use micro_xrce_dds_agent.Root.{get_client}
use micro_xrce_dds_agent.Root.Tests.{env, key, client}
use micro_xrce_dds_agent.Processor.Requests.{Handling}
use micro_xrce_dds_agent.Processor.Dispatch.{Setting, Turn, process_submessage, delete_id}
use micro_xrce_dds_agent.Processor.Packets.{key_of, process_input_packet}
use micro_xrce_dds_agent.Processor.Reading.{Started}
use micro_xrce_dds_agent.Processor.Untouched.{OnSome}
use micro_xrce_dds_agent.Processor.Strangers.{IsTurnedAway, process_input_packet-IsTurnedAway}
use micro_xrce_dds_agent.Processor.Answered.{IsAcknowledged, process_input_packet-IsAcknowledged}
use micro_xrce_dds_agent.Processor.Isolation.{TurnReturned, process_submessage-Spares}
use micro_xrce_dds_agent.Processor.Clients.{Agent, is_no_session}
use micro_xrce_dds_agent.Processor.Types.{InputPacket}
use micro_xrce_dds_agent.Processor.Tests.{codec, packet, client_codec, nobody, agent, reliable}

abbrev setting : Setting list_cdr ℕ
setting = record {
  codec = record codec {
    get_delete = λ m. (some (record { request_id = 0 ∷ 1 ∷ []; object_id = (0, 14) }), m);
  };
  client_codec = client_codec;
  data_codec = record { get_write_data = λ size m. (none, m) };
  info_codec = record {
    get_get_info = λ m. (record { request_id = []; object_id = (0, 0) }, m);
    get_timestamp = λ m. (none, m);
    info = λ p. record { serialized_size = 0; bytes = [] };
    timestamp_reply = λ p. record { serialized_size = 0; bytes = [] };
  };
  read_codec = record {
    get_read_data = λ m. (none, m);
    data_payload = λ request object bytes. record { serialized_size = 0; bytes = [] };
  };
  middleware = record {
    create_participant = λ i domain form w. (true, suc w);
    create = λ e i above form w. (true, suc w);
    delete = λ e i w. w;
    matched_participant = λ i domain form w. true;
    matched = λ e i form w. true;
  };
  writing = record {
    write_data = λ i bytes w. (true, suc w);
    write_request = λ i number bytes w. (true, suc w);
    write_reply = λ i bytes w. (true, suc w);
  };
  environment = env;
  config = record { reliable_stream_depth = 16; best_effort_stream_depth = 16 };
  tweak = false;
  joinable = λ o. true;
  uninitialized = 0;
  now = 0;
  received = 0;
  sending = 0;
}

-- The client asks for its deletion, and another one is there.
abbrev deleting : Handling list_cdr ℕ ℕ
deleting = record {
  agent = record {
    root = record {
      clients = (key, client) ∷ (9 ∷ 9 ∷ 9 ∷ 9 ∷ [], client) ∷ [];
      current_client = none;
    };
    sessions = establish_session nobody 7 16909060 1;
    sent = [];
  };
  client = client;
  packet = record packet {
    message = record packet.message {
      header = record default_header { session_id = 1; client_key = key };
      subheader = record default_subheader { submessage_id = delete_id };
    };
  };
}

in_session : is_no_session deleting.packet.message.header.session_id ≡ false
in_session = refl

-- No message is made of fragments.
abbrev no_more : Turn list_cdr ℕ ℕ → Option (Turn list_cdr ℕ ℕ)
no_more turn = none

process_submessage-Spares_example :
    TurnReturned list_cdr deleting (process_submessage list_cdr 10 setting no_more (deleting, []))
process_submessage-Spares_example =
    process_submessage-Spares list_cdr 10 setting no_more deleting [] in_session refl

-- A packet of the client's first reliable stream with a DELETE, which ends the message.
abbrev from_client : InputPacket list_cdr ℕ
from_client = record packet {
  message = record packet.message {
    header = record default_header {
      session_id = 1;
      stream_id = 128;
      sequence_nr = 0;
      client_key = key;
    };
    deserializer = list_cdr.reader (delete_id ∷ 1 ∷ 4 ∷ 0 ∷ 0 ∷ 1 ∷ 0 ∷ 14 ∷ []);
  };
}

in_client_session : is_no_session from_client.message.header.session_id ≡ false
in_client_session = refl

unknown : get_client list_cdr (key_of list_cdr 10 setting from_client agent) agent.root ≡ none
unfolding key_of get_client find
unknown = refl

process_input_packet-IsTurnedAway_example :
    (a : Agent list_cdr ℕ ℕ) × (process_input_packet list_cdr 10 setting from_client (agent, [])
      ≡ some (a, []))
    × IsTurnedAway list_cdr from_client agent a
process_input_packet-IsTurnedAway_example =
    process_input_packet-IsTurnedAway list_cdr 10 setting from_client agent [] in_client_session
      unknown

known :
    get_client list_cdr (key_of list_cdr 10 setting from_client deleting.agent) deleting.agent.root
    ≡ some client
unfolding key_of get_client find
known = refl

process_input_packet-IsAcknowledged_example :
    OnSome
      (λ (r : Agent list_cdr ℕ ℕ × List Started).
        IsAcknowledged list_cdr 10 setting from_client r.0)
      (process_input_packet list_cdr 10 setting from_client (deleting.agent, []))
process_input_packet-IsAcknowledged_example =
    process_input_packet-IsAcknowledged list_cdr 10 setting client from_client deleting.agent []
      in_client_session known reliable
