-- ===== src/Processor/Resend.antt =====
-- Which messages an ACKNACK makes the agent send again (src/cpp/processor/Processor.cpp).
use mathlib.Core.List.{append-nil, append_assoc}
use micro_xrce_dds_agent.Common.{
  ℕ, zero, suc, ◌+◌, ◌%◌, ◌^◌, ◌<◌, ◌≡◌, refl, sym, ap, subst, ◌∙◌, Bool, true, false, ◌&&◌, List,
  [], ◌∷◌, ◌++◌, Option, none, some, ==_refl, leb, ltb, arith, if◌then◌else◌,
}
use micro_xrce_dds_agent.Common.Dict.{find, find-assign}
use micro_xrce_dds_agent.Cdr.{Cdr}
use micro_xrce_dds_agent.Message.Output.{OutputMessage}
use micro_xrce_dds_agent.InputStream.Reliable.{AcknackPayload}
use micro_xrce_dds_agent.InputStream.Reliable.Window.{number}
use micro_xrce_dds_agent.OutputStream.Reliable.{ReliableOutputStream, get_message}
use micro_xrce_dds_agent.OutputStream.Reliable as Out
use micro_xrce_dds_agent.OutputStream.Reliable.Window.{
  Window, get_message-Window, update_from_acknack-Window,
}
use micro_xrce_dds_agent.Session.{Session, is_reliable_stream}
use micro_xrce_dds_agent.Session.Output.{
  get_output_message, get_reliable_output_stream, update_from_acknack,
}
use micro_xrce_dds_agent.Processor.Types.{Codec, InputPacket, OutputPacket}
use micro_xrce_dds_agent.Processor.Acknack.{
  resend, has_bit, resend_loop, process_acknack_submessage,
}

module _ (c : Cdr) {EndPoint : Type 0} (destination : EndPoint)
    (message : ℕ → OutputMessage c) where
  -- The packet of a message that is asked for and neither acknowledged nor yet to be made.
  abbrev pub packet_of : Bool → ℕ → ℕ → ℕ → List (OutputPacket c EndPoint)
  packet_of asked acked made i =
      if asked && (leb acked i && ltb i made)
      then record { destination = destination; message = message i } ∷ []
      else []

  -- The packets that answer a bitmap from its bit `i` on whose bit 0 stands for message `first`.
  abbrev pub asked_for : AcknackPayload → ℕ → ℕ → ℕ → ℕ → ℕ → List (OutputPacket c EndPoint)
  asked_for ack first acked made zero i = []
  asked_for ack first acked made (suc rounds) i =
      packet_of (has_bit ack.nack_low i) acked made (first + i)
      ++ (packet_of (has_bit ack.nack_high i) acked made (first + i + 8)
          ++ asked_for ack first acked made rounds (i + 1))

  found_stream :
      (stream_id seq_num : ℕ) (session : Session c) (s : ReliableOutputStream c)
      → is_reliable_stream stream_id ≡ true
      → find stream_id session.reliable_ostreams ≡ some s
      → get_output_message c stream_id seq_num session ≡ (get_message c seq_num s, session)
  unfolding get_output_message get_reliable_output_stream
  found_stream stream_id seq_num session s reliable found =
      rw (found, get_reliable_output_stream) (rw reliable refl)

  module _ (acked taken made stream_id : ℕ) (session : Session c) (s : ReliableOutputStream c)
      (reliable : is_reliable_stream stream_id ≡ true)
      (found : find stream_id session.reliable_ostreams ≡ some s)
      (window : Window c message acked taken made s) where
    resend_lem :
        (asked : Bool) (i seq_num : ℕ) (sent : List (OutputPacket c EndPoint))
        → seq_num ≡ number i
        → acked < i + 2 ^ 15
        → i < acked + 2 ^ 15
        → resend c destination asked stream_id seq_num (session, sent)
          ≡ (session, sent ++ packet_of asked acked made i)
    unfolding resend
    resend_lem false i seq_num sent is near far = ap (λ x. (session, x)) (sym (append-nil sent))
    resend_lem true i seq_num sent is near far =
        let got : get_output_message c stream_id seq_num session
            ≡ (if leb acked i && ltb i made then some (message i) else none, session) =
          found_stream stream_id seq_num session s reliable found
          ∙ ap (λ x. (x, session))
              (ap (λ k. get_message c k s) is
                ∙ get_message-Window c message acked taken made i s near far window) in
        ap
          (λ (x : Option (OutputMessage c) × Session c).
            elim x.0 as (λ o. Session c × List (OutputPacket c EndPoint)) [
              | none ↦ (x.1, sent)
              | some m ↦ (x.1, sent ++ (record { destination = destination; message = m } ∷ []))
            ])
          got
        ∙ answered (leb acked i && ltb i made)
      where
        answered :
            (b : Bool)
            → elim (if b then some (message i) else none)
                as (λ o. Session c × List (OutputPacket c EndPoint)) [
                  | none ↦ (session, sent)
                  | some m ↦
                      (session, sent ++ (record { destination = destination; message = m } ∷ []))
                ]
              ≡ (
                session,
                sent
                    ++ (if b
                        then record { destination = destination; message = message i } ∷ []
                        else []),
              )
        answered true = refl
        answered false = ap (λ x. (session, x)) (sym (append-nil sent))

    resend_here :
        (ack : AcknackPayload) (asked : Bool) (i seq_num : ℕ)
        (sent : List (OutputPacket c EndPoint))
        → ack.stream_id ≡ stream_id
        → seq_num ≡ number i
        → acked < i + 2 ^ 15
        → i < acked + 2 ^ 15
        → resend c destination asked ack.stream_id seq_num (session, sent)
          ≡ (session, sent ++ packet_of asked acked made i)
    resend_here ack asked i seq_num sent to is near far =
        subst
          (λ k.
            resend c destination asked k seq_num (session, sent)
            ≡ (session, sent ++ packet_of asked acked made i))
          (sym to) (resend_lem asked i seq_num sent is near far)

    resend_loop_lem :
        (ack : AcknackPayload) (first rounds i : ℕ) (sent : List (OutputPacket c EndPoint))
        → ack.stream_id ≡ stream_id
        → ack.first_unacked_seq_num ≡ number first
        → rounds + i ≡ 8
        → acked < first + 2 ^ 15
        → first + 15 < acked + 2 ^ 15
        → resend_loop c destination ack rounds i (session, sent)
          ≡ (session, sent ++ asked_for ack first acked made rounds i)
    unfolding resend_loop
    resend_loop_lem ack first zero i sent to is total near far =
        ap (λ x. (session, x)) (sym (append-nil sent))
    resend_loop_lem ack first (suc rounds) i sent to is total near far =
        let low = has_bit ack.nack_low i in
        let high = has_bit ack.nack_high i in
        let p1 = packet_of low acked made (first + i) in
        let p2 = packet_of high acked made (first + i + 8) in
        let low_number : (ack.first_unacked_seq_num + i) % 2 ^ 16 ≡ number (first + i) =
          omega (arith, is) in
        let high_number : (ack.first_unacked_seq_num + i + 8) % 2 ^ 16 ≡ number (first + i + 8) =
          omega (arith, is) in
        ap (resend_loop c destination ack rounds (i + 1)) (
          ap
            (resend c destination high ack.stream_id ((ack.first_unacked_seq_num + i + 8) % 2 ^ 16))
            (resend_here ack low (first + i) _ sent to low_number (omega (arith, near))
              (omega (arith, far, total)))
          ∙ resend_here ack high (first + i + 8) _ (sent ++ p1) to high_number (omega (arith, near))
              (omega (arith, far, total)))
        ∙ (resend_loop_lem ack first rounds (i + 1) ((sent ++ p1) ++ p2) to is
              (omega (arith, total)) near far
            ∙ ap (λ x. (session, x)) (append_assoc (sent ++ p1) p2 _ ∙ append_assoc sent p1 _))

module _ (c : Cdr) where
  updated_stream :
      (stream_id k : ℕ) (session : Session c) (s : ReliableOutputStream c)
      → is_reliable_stream stream_id ≡ true
      → find stream_id session.reliable_ostreams ≡ some s
      → find stream_id (update_from_acknack c stream_id k session).reliable_ostreams
        ≡ some (Out.update_from_acknack c k s)
  unfolding update_from_acknack get_reliable_output_stream
  updated_stream stream_id k session s reliable found =
      rw (reliable, update_from_acknack)
        (rw (found, get_reliable_output_stream)
          (find-assign stream_id stream_id (Out.update_from_acknack c k s) session.reliable_ostreams
            ∙ rw (==_refl stream_id) refl))

module _ (c : Cdr) {EndPoint : Type 0} where
  -- An ACKNACK that can be read is answered by the messages of the reliable stream whose bits are
  -- set and that are made and not acknowledged, in the order in which the bits are tested, and
  -- then moves the stream's window. The bits stand for sixteen messages from the one named,
  -- `first`, all less than half the range away from the window.
  pub process_acknack_submessage-Window :
      (codec : Codec c) (packet : InputPacket c EndPoint) (ack : AcknackPayload)
      (message : ℕ → OutputMessage c) (acked taken made first : ℕ) (session : Session c)
      (s : ReliableOutputStream c)
      → (codec.get_acknack packet.message).0 ≡ some ack
      → is_reliable_stream ack.stream_id ≡ true
      → find ack.stream_id session.reliable_ostreams ≡ some s
      → Window c message acked taken made s
      → ack.first_unacked_seq_num ≡ number first
      → taken < first + 2 ^ 15
      → first + 15 < acked + 2 ^ 15
      → let (rv, read_on, after, sent) = process_acknack_submessage c codec packet session in
        (rv ≡ true)
        × (sent ≡ asked_for c packet.source message ack first acked made 8 0)
        × (s' : ReliableOutputStream c) × (find ack.stream_id after.reliable_ostreams ≡ some s')
        × Window c message
            (if ltb acked first && leb first taken then first else acked)
            taken
            made
            s'
  unfolding process_acknack_submessage
  process_acknack_submessage-Window codec packet ack message acked taken made first session s read
        reliable found window is near far =
      let answer : resend_loop c packet.source ack 8 0 (session, [])
          ≡ (session, asked_for c packet.source message ack first acked made 8 0) =
        resend_loop_lem c packet.source message acked taken made ack.stream_id session s reliable
          found window ack first 8 0 [] refl is refl (omega (arith, near, window.acked_taken))
          far in
      rw (read, process_acknack_submessage)
        (
          refl,
          ap (λ x. x.1) answer,
          Out.update_from_acknack c ack.first_unacked_seq_num s,
          ap
                (λ x.
                  find ack.stream_id
                    (update_from_acknack c ack.stream_id ack.first_unacked_seq_num
                      x.0).reliable_ostreams)
                answer
              ∙ updated_stream c ack.stream_id ack.first_unacked_seq_num session s reliable found,
          subst
              (λ k.
                Window c message (if ltb acked first && leb first taken then first else acked) taken
                  made (Out.update_from_acknack c k s))
              (sym is)
              (update_from_acknack-Window c message acked taken made first s near
                (omega (arith, far, window.acked_taken)) window),
        )
