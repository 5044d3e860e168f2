-- ===== src/Processor/Acknack.antt =====
-- Answering an ACKNACK (src/cpp/processor/Processor.cpp).
use Prim.Native.Nat.{bit_and}
use micro_xrce_dds_agent.Common.{
  ℕ, zero, suc, ◌+◌, ◌%◌, ◌^◌, Bool, true, false, List, [], ◌∷◌, ◌++◌, none, some, ◌==◌,
  if◌then◌else◌,
}
use micro_xrce_dds_agent.Cdr.{Cdr}
use micro_xrce_dds_agent.InputStream.Reliable.{AcknackPayload}
use micro_xrce_dds_agent.Session.{Session}
use micro_xrce_dds_agent.Session.Output.{get_output_message, update_from_acknack}
use micro_xrce_dds_agent.Processor.Types.{Codec, InputPacket, OutputPacket}

-- `(octet & mask) == mask` for the mask of a bit.
abbrev pub has_bit : ℕ → ℕ → Bool
has_bit octet i = bit_and octet (2 ^ i) == 2 ^ i

module _ (c : Cdr) {EndPoint : Type 0} where
  -- `get_output_message`, and `push_output_packet` if there is a message, under the test of a
  -- bit of the bitmap.
  unfoldable pub resend :
      EndPoint
      → Bool
      → ℕ
      → ℕ
      → Session c × List (OutputPacket c EndPoint)
      → Session c × List (OutputPacket c EndPoint)
  resend destination asked stream_id seq_num (session, sent) =
      let (found, session') = get_output_message c stream_id seq_num session in
      if asked
      then elim found [
        | none ↦ (session', sent)
        | some message ↦
            (session', sent ++ (record { destination = destination; message = message } ∷ []))
      ]
      else (session, sent)

  -- The rounds from `i` on, `rounds` of them. `nack_bitmap.at(1)` is the low octet.
  unfoldable pub resend_loop :
      EndPoint
      → AcknackPayload
      → ℕ
      → ℕ
      → Session c × List (OutputPacket c EndPoint)
      → Session c × List (OutputPacket c EndPoint)
  resend_loop destination ack zero i x = x
  resend_loop destination ack (suc rounds) i x =
      let first = ack.first_unacked_seq_num in
      let y = resend destination (has_bit ack.nack_low i) ack.stream_id ((first + i) % 2 ^ 16) x in
      let z =
        resend destination (has_bit ack.nack_high i) ack.stream_id ((first + i + 8) % 2 ^ 16) y in
      resend_loop destination ack rounds (i + 1) z

  -- The result is `rv`, the packet with its message read on, the session and the packets given
  -- to the server.
  unfoldable pub process_acknack_submessage :
      Codec c
      → InputPacket c EndPoint
      → Session c
      → Bool × InputPacket c EndPoint × Session c × List (OutputPacket c EndPoint)
  process_acknack_submessage codec packet session =
      let (payload, message) = codec.get_acknack packet.message in
      let read_on : InputPacket c EndPoint = record packet { message = message } in
      elim payload [
        | none ↦ (false, read_on, session, [])
        | some ack ↦
            let (session', sent) = resend_loop packet.source ack 8 0 (session, []) in
            (
              true,
              read_on,
              update_from_acknack c ack.stream_id ack.first_unacked_seq_num session',
              sent,
            )
      ]
