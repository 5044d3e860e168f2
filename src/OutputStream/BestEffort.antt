-- ===== src/OutputStream/BestEffort.antt =====
-- `BestEffortOutputStream`: a bounded queue of numbered messages.
use micro_xrce_dds_agent.Common.{
  ℕ, ◌-◌, ◌^◌, Bool, true, false, List, [], ◌∷◌, ◌++◌, Option, none, some, length, ltb,
  if◌then◌else◌,
}
use micro_xrce_dds_agent.Common.Int.{pos}
use micro_xrce_dds_agent.SeqNum
use micro_xrce_dds_agent.Cdr.{Cdr}
use micro_xrce_dds_agent.Message.Header.{MessageHeader}
use micro_xrce_dds_agent.Message.Output
use micro_xrce_dds_agent.Message.Output.{OutputMessage, Submessage}
use micro_xrce_dds_agent.OutputStream.Types.{SessionInfo, default_flags}

abbrev pub next_header : SessionInfo → ℕ → ℕ → MessageHeader
next_header info stream_id sequence_nr = record {
  session_id = info.session_id;
  stream_id = stream_id;
  sequence_nr = sequence_nr;
  client_key = info.client_key;
}

module _ (c : Cdr) where
  pub record BestEffortOutputStream : Type 0 where
    pub messages : List (OutputMessage c)
    pub last_sent : ℕ

  abbrev pub init : BestEffortOutputStream
  init = record { messages = []; last_sent = 2 ^ 16 - 1 }

  unfoldable pub reset : BestEffortOutputStream → BestEffortOutputStream
  reset s = record s { messages = []; last_sent = 2 ^ 16 - 1 }

  -- A submessage larger than the MTU is dropped with a warning, and `rv` is true.
  unfoldable pub push_submessage :
      ℕ → SessionInfo → ℕ → ℕ → Submessage → BestEffortOutputStream → Bool × BestEffortOutputStream
  push_submessage depth info stream_id id submessage s =
      let next = SeqNum.add_int s.last_sent (pos 1) in
      let (appended, message) =
        Output.append_submessage c id submessage default_flags
          (Output.create c (next_header info stream_id next) info.mtu) in
      if ltb (length s.messages) depth
      then (if ltb info.mtu submessage.serialized_size
          then (true, s)
          else (if appended
              then (true, record s { messages = s.messages ++ (message ∷ []); last_sent = next })
              else (false, s)))
      else (false, s)

  unfoldable pub pop_message :
      BestEffortOutputStream → Option (OutputMessage c) × BestEffortOutputStream
  pop_message s = elim s.messages [ [] ↦ (none, s) | m ∷ ms ↦ (some m, record s { messages = ms }) ]
