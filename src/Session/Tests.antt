-- ===== src/Session/Tests.antt =====
-- A new session with two of its streams.
use micro_xrce_dds_agent.Common.{ℕ, ◌≡◌, ◌≢◌, [], ◌∷◌, true, arith}
use micro_xrce_dds_agent.Cdr.ListCdr.{list_cdr}
use micro_xrce_dds_agent.Message.Input.{InputMessage}
use micro_xrce_dds_agent.Session.{Session, Config, create}
use micro_xrce_dds_agent.Session.Input.{push_input_message, pop_input_message}
use micro_xrce_dds_agent.Session.Isolation.{pop_input_message-push_input_message}

abbrev config : Config
config = record { reliable_stream_depth = 16; best_effort_stream_depth = 16 }

abbrev session : Session list_cdr
session = create list_cdr (record { client_key = 1 ∷ 2 ∷ 3 ∷ 4 ∷ []; session_id = 1; mtu = 512 })

abbrev message : InputMessage list_cdr
message = record {
  buf = 0 ∷ [];
  header = record { session_id = 128; stream_id = 128; sequence_nr = 0; client_key = [] };
  subheader = record { submessage_id = 0; flags = 0; submessage_length = 0 };
  deserializer = list_cdr.reader (0 ∷ []);
  valid_xrce_message = true;
}

two_streams : let i : ℕ = 128 in i ≢ 129
two_streams = λ e. absurd (omega arith)

pop_input_message-push_input_message_example :
    (pop_input_message list_cdr 129 (push_input_message list_cdr config message 128 0 session).1).0
    ≡ (pop_input_message list_cdr 129 session).0
pop_input_message-push_input_message_example =
    pop_input_message-push_input_message list_cdr config message 128 129 0 session two_streams
