-- ===== src/Tests.antt =====
-- Concrete messages and streams at which the theorems on sequence numbers, messages and streams
-- apply. Fast CDR is `list_cdr` here.
use micro_xrce_dds_agent.Common.{
  none, if◌then◌else◌, ℕ, ◌-◌, ◌^◌, ◌≤◌, ◌≡◌, refl, true, false, List, [], ◌∷◌, ◌++◌, some, length,
  map, arith,
}
use micro_xrce_dds_agent.Common.Dict
use micro_xrce_dds_agent.Common.Int.{pos}
use micro_xrce_dds_agent.SeqNum
use micro_xrce_dds_agent.SeqNum.{lt, add, add_int, increment, sub, sub_int, IsSeqNum}
use micro_xrce_dds_agent.Cdr.ListCdr.{list_cdr}
use micro_xrce_dds_agent.Message.Header.RoundTrip.{subheader_bytes}
use micro_xrce_dds_agent.Message.Input
use micro_xrce_dds_agent.Message.Input.{InputMessage, count_submessages}
use micro_xrce_dds_agent.Message.Input.RoundTrip.{ReadsAs, parse-append_submessage}
use micro_xrce_dds_agent.Message.Input.Count.{create_total, has_submessage, count_submessages_lem}
use micro_xrce_dds_agent.Message.Output
use micro_xrce_dds_agent.Message.Output.{Submessage}
use micro_xrce_dds_agent.InputStream.BestEffort as BestEffortIn
use micro_xrce_dds_agent.InputStream.BestEffort.Order.{push_all, Ascending, push_all-Ascending}
use micro_xrce_dds_agent.InputStream.Reliable as In
use micro_xrce_dds_agent.InputStream.Reliable.{
  AcknackPayload, ReliableInputStream, is_missing, push_message, pop_message, pop_fragment_message,
}
use micro_xrce_dds_agent.Message.Header.{default_header, deserialize_header}
use micro_xrce_dds_agent.InputStream.Reliable.Delivery.{
  Run, start, arrive, take_some, first_sent, delivered_in_order, delivered_next,
}
use micro_xrce_dds_agent.OutputStream.Types.{SessionInfo}
use micro_xrce_dds_agent.OutputStream.BestEffort.{next_header}
use micro_xrce_dds_agent.OutputStream.Reliable as Out
use micro_xrce_dds_agent.OutputStream.Reliable.{ReliableOutputStream, has_room, push_submessage}
use micro_xrce_dds_agent.OutputStream.Reliable.Fragments.{Fragmented, push_fragments}
use micro_xrce_dds_agent.OutputStream.Reliable.Push.{submessage_header, push_submessage-Fragmented}
use micro_xrce_dds_agent.Reassembly.{receive_all, reassembled}

abbrev info : SessionInfo
info = record { client_key = 1 ∷ 2 ∷ 3 ∷ 4 ∷ []; session_id = 1; mtu = 16 }

abbrev ten : Submessage
ten = record { serialized_size = 10; bytes = 9 ∷ 8 ∷ 7 ∷ 6 ∷ 5 ∷ 4 ∷ 3 ∷ 2 ∷ 1 ∷ 0 ∷ [] }

abbrev sender : ReliableOutputStream list_cdr
sender = Out.init list_cdr

abbrev receiver : ReliableInputStream list_cdr
receiver = In.init list_cdr

roomy : has_room list_cdr 4 sender ≡ true
unfolding has_room SeqNum.lt SeqNum.gt SeqNum.le SeqNum.ge SeqNum.add
roomy = refl

reassembled_example :
    (fs : List (ℕ × List ℕ)) × (after : ReliableInputStream list_cdr) × (message : List ℕ)
    × (push_submessage list_cdr 14 4 info 128 5 ten sender
        ≡ some (true, push_fragments list_cdr info 128 12 fs sender))
    × (receive_all list_cdr info 128 12 (2 ^ 16 - 1) fs receiver ≡ some after)
    × ((pop_fragment_message list_cdr after).0 ≡ some (Input.create list_cdr message))
    × ReadsAs list_cdr message
        (next_header info 128 (add_int (2 ^ 16 - 1) (pos 1)))
        (record { submessage_id = 5; flags = 1; submessage_length = 10 })
        ten.bytes
    × ((pop_fragment_message list_cdr after).1
        ≡ record receiver { fragment_msg = []; fragment_message_available = false })
reassembled_example =
    reassembled list_cdr info 128 5 ten 14 4 sender receiver refl refl roomy (omega arith)
      (omega arith) (omega arith) (omega arith) (omega arith) refl

push_submessage-Fragmented_example :
    (fs : List (ℕ × List ℕ)) × Fragmented 4
      (subheader_bytes (submessage_header 5 ten) ++ ten.bytes)
      fs
    × (push_submessage list_cdr 14 4 info 128 5 ten sender
        ≡ some (true, push_fragments list_cdr info 128 12 fs sender))
push_submessage-Fragmented_example =
    push_submessage-Fragmented list_cdr info 128 refl 5 ten refl 14 4 sender roomy (omega arith)
      (omega arith) (omega arith) (omega arith) (omega arith)

parse-append_submessage_example :
    let (appended, out) =
      Output.append_submessage list_cdr 5 ten 1
        (Output.create list_cdr (next_header info 128 7) 30) in
    (appended ≡ true)
    × ReadsAs list_cdr
        (Output.contents list_cdr out)
        (next_header info 128 7)
        (record { submessage_id = 5; flags = 1; submessage_length = 10 })
        ten.bytes
parse-append_submessage_example =
    parse-append_submessage list_cdr (next_header info 128 7) 5 ten 1 30 refl refl (omega arith)
      (omega arith)

-- The messages of a sender, told apart by their only byte.
abbrev sent : ℕ → InputMessage list_cdr
sent i = record {
  buf = i ∷ [];
  header = next_header info 128 i;
  subheader = record { submessage_id = 0; flags = 0; submessage_length = 0 };
  deserializer = list_cdr.reader (i ∷ []);
  valid_xrce_message = true;
}

-- The second message arrives first, then the first, which is taken.
abbrev both : ReliableInputStream list_cdr
both = (push_message list_cdr 4 0 (sent 0) (push_message list_cdr 4 1 (sent 1) receiver).1).1

handed_out : (pop_message list_cdr both).0 ≡ some (sent 0)
unfolding push_message pop_message SeqNum.lt SeqNum.gt SeqNum.le SeqNum.ge SeqNum.add add_int
    Dict.find Dict.erase Dict.emplace
handed_out = refl

abbrev one_taken :
    Run list_cdr sent 4 (omega arith) (omega arith) (pop_message list_cdr both).1 (sent 0 ∷ [])
one_taken =
    take_some (arrive (arrive start 1 (omega arith) (omega arith)) 0 (omega arith) (omega arith))
      handed_out

delivered_in_order_example : sent 0 ∷ [] ≡ first_sent list_cdr sent 4 (omega arith) (omega arith) 1
delivered_in_order_example =
    delivered_in_order list_cdr sent 4 (omega arith) (omega arith) one_taken

delivered_next_example :
    (pop_message list_cdr (push_message list_cdr 4 1 (sent 1) (pop_message list_cdr both).1).1).0
    ≡ some (sent 1)
delivered_next_example = delivered_next list_cdr sent 4 (omega arith) (omega arith) one_taken

abbrev blank : AcknackPayload
blank = record { stream_id = 128; first_unacked_seq_num = 0; nack_high = 0; nack_low = 0 }

-- The second of two messages has arrived, the first has not.
abbrev second_only : ReliableInputStream list_cdr
second_only = (push_message list_cdr 4 1 (sent 1) receiver).1

push_all-Ascending_example :
    let (taken, s') = push_all {M = ℕ} 2 ((3, 30) ∷ (2, 20) ∷ (5, 50) ∷ []) BestEffortIn.init in
    Ascending {M = ℕ} 2 (2 ^ 16 - 1) taken
    × (s'.messages ≡ [] ++ map (λ p. p.1) taken)
    × (length s'.messages ≤ 2)
push_all-Ascending_example =
    push_all-Ascending {M = ℕ} 2 ((3, 30) ∷ (2, 20) ∷ (5, 50) ∷ []) BestEffortIn.init (omega arith)

over_the_top : (lt 65535 3 ≡ true) × (lt 3 10 ≡ true)
unfolding lt
over_the_top = (refl, refl)

create_total_example : (m : InputMessage list_cdr) × (Input.create list_cdr (1 ∷ 2 ∷ []) ≡ some m)
create_total_example = create_total list_cdr (1 ∷ 2 ∷ [])

count_submessages_lem_example :
    count_submessages list_cdr (129 ∷ 128 ∷ 0 ∷ 0 ∷ 5 ∷ 1 ∷ 0 ∷ 0 ∷ 5 ∷ 1 ∷ 0 ∷ 0 ∷ []) ≡ (
      let buf = 129 ∷ 128 ∷ 0 ∷ 0 ∷ 5 ∷ 1 ∷ 0 ∷ 0 ∷ 5 ∷ 1 ∷ 0 ∷ 0 ∷ [] in
      let (done, _, r) = deserialize_header list_cdr (default_header, list_cdr.reader buf) in
      if done then some (if has_submessage list_cdr buf r then 1 else 0) else none)
count_submessages_lem_example =
    count_submessages_lem list_cdr (129 ∷ 128 ∷ 0 ∷ 0 ∷ 5 ∷ 1 ∷ 0 ∷ 0 ∷ 5 ∷ 1 ∷ 0 ∷ 0 ∷ [])
