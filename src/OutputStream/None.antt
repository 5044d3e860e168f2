-- ===== src/OutputStream/None.antt =====
-- `NoneOutputStream`: a bounded queue of messages without a sequence number.
use micro_xrce_dds_agent.Common.{
  ℕ, Bool, true, false, List, [], ◌∷◌, ◌++◌, Option, none, some, length, ltb, if◌then◌else◌,
}
use micro_xrce_dds_agent.Cdr.{Cdr}
use micro_xrce_dds_agent.Message.Header.{MessageHeader}
use micro_xrce_dds_agent.Message.Output
use micro_xrce_dds_agent.Message.Output.{OutputMessage, Submessage}
use micro_xrce_dds_agent.OutputStream.Types.{SessionInfo, streamid_none, default_flags}

module _ (c : Cdr) where
  pub record NoneOutputStream : Type 0 where
    pub messages : List (OutputMessage c)

  unfoldable pub reset : NoneOutputStream → NoneOutputStream
  reset s = record s { messages = [] }

  -- `depth` is BEST_EFFORT_STREAM_DEPTH of the build.
  unfoldable pub push_submessage :
      ℕ → SessionInfo → ℕ → Submessage → NoneOutputStream → Bool × NoneOutputStream
  push_submessage depth info id submessage s =
      let header : MessageHeader = record {
        session_id = info.session_id;
        stream_id = streamid_none;
        sequence_nr = 0;
        client_key = info.client_key;
      } in
      let (appended, message) =
        Output.append_submessage c id submessage default_flags (Output.create c header info.mtu) in
      if ltb (length s.messages) depth
      then (if appended
          then (true, record s { messages = s.messages ++ (message ∷ []) })
          else (false, s))
      else (false, s)

  unfoldable pub pop_message : NoneOutputStream → Option (OutputMessage c) × NoneOutputStream
  pop_message s = elim s.messages [ [] ↦ (none, s) | m ∷ ms ↦ (some m, record s { messages = ms }) ]
