-- ===== src/Reassembly.antt =====
-- Fragments from a reliable output stream to the reliable input stream of the other side: the
-- messages of OutputStream.hpp are read by InputMessage.hpp and pushed one by one into
-- InputStream.hpp, which puts the submessage together again.
use mathlib.Core.List.{append_assoc}
use Prim.Native.Nat.{bit_and}
use micro_xrce_dds_agent.Common.{
  ℕ, suc, ◌+◌, ◌%◌, ◌^◌, ◌≤◌, ◌<◌, ◌≡◌, refl, sym, ap, subst, ◌∙◌, Bool, true, false, not, List, [],
  ◌∷◌, ◌++◌, Option, none, some, length, is_empty, take, take-append, arith, ltb, ◌==◌,
  if◌then◌else◌,
}
use micro_xrce_dds_agent.Common.Int.{pos}
use micro_xrce_dds_agent.SeqNum
use micro_xrce_dds_agent.Cdr.{Cdr}
use micro_xrce_dds_agent.Message.Header.{MessageHeader, SubmessageHeader, default_header}
use micro_xrce_dds_agent.Message.Header.RoundTrip.{IsHeader, header_bytes, subheader_bytes}
use micro_xrce_dds_agent.Message.Input
use micro_xrce_dds_agent.Message.Input.{InputMessage, get_raw_header, get_raw_payload}
use micro_xrce_dds_agent.Message.Input.RoundTrip.{
  message_bytes, create_lem, prepare_lem, raw_payload_lem, ReadsAs, message_bytes-ReadsAs,
}
use micro_xrce_dds_agent.Message.Output
use micro_xrce_dds_agent.Message.Output.{Submessage}
use micro_xrce_dds_agent.InputStream.Reliable.{
  ReliableInputStream, push_fragment, pop_fragment_message,
}
use micro_xrce_dds_agent.OutputStream.BestEffort.{next_header}
use micro_xrce_dds_agent.OutputStream.Types.{SessionInfo}
use micro_xrce_dds_agent.OutputStream.Reliable.{ReliableOutputStream, has_room, push_submessage}
use micro_xrce_dds_agent.OutputStream.Reliable.Fragments.{
  Fragmented, last, more, Fits, fragment_message, contents-fragment_message, push_fragments,
}
use micro_xrce_dds_agent.OutputStream.Reliable.Push.{
  header_length, submessage_header, push_submessage-Fragmented,
}

module _ (c : Cdr) where
  -- A received message, made ready for its first submessage and pushed as a fragment.
  abbrev pub push_read :
      Option (InputMessage c) → ReliableInputStream c → Option (ReliableInputStream c)
  push_read none s = none
  push_read (some m) s = some (push_fragment c (Input.prepare_next_submessage c m).1 s).1

  pub receive : List ℕ → ReliableInputStream c → Option (ReliableInputStream c)
  receive wire s = push_read (Input.create c wire) s

  abbrev pub and_receive :
      Option (ReliableInputStream c)
      → (ReliableInputStream c → Option (ReliableInputStream c))
      → Option (ReliableInputStream c)
  and_receive none k = none
  and_receive (some s) k = k s

  abbrev pub gathered : MessageHeader → List ℕ → ℕ → ReliableInputStream c → ReliableInputStream c
  gathered h chunk flags s = record s {
    fragment_msg = (if is_empty s.fragment_msg then header_bytes h else s.fragment_msg) ++ chunk;
    fragment_message_available = not (bit_and 2 flags == 0);
  }

  raw_header_lem :
      (h : MessageHeader) (rest : List ℕ)
      → IsHeader h
      → take (if ltb h.session_id 128 then 8 else 4) (header_bytes h ++ rest) ≡ header_bytes h
  raw_header_lem h rest v =
      subst (λ n. take n (header_bytes h ++ rest) ≡ header_bytes h) (size (ltb h.session_id 128))
        (take-append (header_bytes h) rest)
    where
      size :
          (b : Bool)
          → suc (suc (suc (suc (length (if b then h.client_key else []))))) ≡ (if b then 8 else 4)
      size true = omega arith
      size false = refl

  get_raw_header_lem :
      (h : MessageHeader) (rest : List ℕ) (m : InputMessage c)
      → IsHeader h
      → m.buf ≡ header_bytes h ++ rest
      → m.header.session_id ≡ h.session_id
      → get_raw_header c m ≡ header_bytes h
  unfolding get_raw_header
  get_raw_header_lem h rest m v e same = rw (e, same) (raw_header_lem h rest v)

  push_fragment_lem :
      (h : MessageHeader) (m : InputMessage c) (flags : ℕ) (chunk : List ℕ)
      (s : ReliableInputStream c)
      → get_raw_header c m ≡ header_bytes h
      → m.subheader.flags ≡ flags
      → (get_raw_payload c m.subheader.submessage_length m).0 ≡ some chunk
      → (push_fragment c m s).1 ≡ gathered h chunk flags s
  unfolding push_fragment
  push_fragment_lem h m flags chunk s header sub payload = rw (payload, header, sub) refl

  push_prepared :
      (h : MessageHeader) (flags : ℕ) (chunk : List ℕ) (s : ReliableInputStream c)
      (m : InputMessage c)
      → IsHeader h
      → let sub : SubmessageHeader = record {
        submessage_id = 13;
        flags = flags;
        submessage_length = length chunk;
      } in
        m.buf ≡ message_bytes c h sub chunk
        → m.header ≡ record h {
          client_key = if ltb h.session_id 128 then h.client_key else default_header.client_key;
        }
        → m.subheader ≡ sub
        → c.rest m.deserializer ≡ chunk
        → (push_fragment c m s).1 ≡ gathered h chunk flags s
  push_prepared h flags chunk s m v same_buf same_header same left =
      let size : m.subheader.submessage_length ≡ length chunk =
        ap (λ t. t.submessage_length) same in
      push_fragment_lem h m flags chunk s
        (get_raw_header_lem h _ m v same_buf (ap (λ t. t.session_id) same_header))
        (ap (λ t. t.flags) same)
        (ap (λ n. (get_raw_payload c n m).0) size ∙ raw_payload_lem c m chunk left (sym size))

  receive_lem :
      (h : MessageHeader) (flags : ℕ) (chunk : List ℕ) (s : ReliableInputStream c)
      → IsHeader h
      → receive
          (header_bytes h
            ++ (subheader_bytes
                  (record { submessage_id = 13; flags = flags; submessage_length = length chunk })
                ++ chunk))
          s
        ≡ some (gathered h chunk flags s)
  unfolding receive
  receive_lem h flags chunk s v =
      let sub : SubmessageHeader = record {
        submessage_id = 13;
        flags = flags;
        submessage_length = length chunk;
      } in
      let (made, at) = create_lem c h sub chunk v in
      let (done, same_buf, same_header, same, left) = prepare_lem c h sub chunk v _ refl at in
      ap (λ m. push_read m s) made
      ∙ ap some (push_prepared h flags chunk s _ v same_buf same_header same left)

  -- The messages of fragments that are numbered from the one after `seq` on, in order.
  module _ (info : SessionInfo) (stream_id headers : ℕ) where
    abbrev pub receive_all :
        ℕ → List (ℕ × List ℕ) → ReliableInputStream c → Option (ReliableInputStream c)
    receive_all seq [] s = some s
    receive_all seq ((flags, chunk) ∷ fs) s =
        let next = SeqNum.add_int seq (pos 1) in
        and_receive
          (receive (Output.contents c (fragment_message c info stream_id headers next flags chunk))
            s)
          (receive_all next fs)

    module _ (key : length info.client_key ≡ 4) (fits : Fits c info stream_id headers) where
      receive_one :
          (seq flags : ℕ) (chunk : List ℕ) (s : ReliableInputStream c)
          → receive
              (Output.contents c (fragment_message c info stream_id headers seq flags chunk))
              s
            ≡ some (gathered (next_header info stream_id seq) chunk flags s)
      receive_one seq flags chunk s =
          ap (λ wire. receive wire s)
            (contents-fragment_message c info stream_id key headers fits seq flags chunk)
          ∙ receive_lem (next_header info stream_id seq) flags chunk s key

      abbrev whole : List ℕ → ReliableInputStream c → ReliableInputStream c
      whole bytes s = record s { fragment_msg = bytes; fragment_message_available = true }

      abbrev gathered_more : List ℕ → ReliableInputStream c → ReliableInputStream c
      gathered_more chunk s = record s {
        fragment_msg = s.fragment_msg ++ chunk;
        fragment_message_available = false;
      }

      not_empty : (xs ys : List ℕ) → is_empty xs ≡ false → is_empty (xs ++ ys) ≡ false
      not_empty [] ys e = cc
      not_empty (x ∷ xs) ys e = refl

      receive_rest :
          (max seq : ℕ) (bytes : List ℕ) (fs : List (ℕ × List ℕ)) (s : ReliableInputStream c)
          → Fragmented max bytes fs
          → is_empty s.fragment_msg ≡ false
          → receive_all seq fs s ≡ some (whole (s.fragment_msg ++ bytes) s)
      receive_rest max seq bytes fs s (last _ short) started =
          rw (receive_one _ 3 bytes s, started) refl
      receive_rest max seq bytes fs s (more chunk {bytes = b} {fs = gs} size cut) started =
          rw (receive_one _ 1 chunk s, started)
            (receive_rest max (SeqNum.add_int seq (pos 1)) b gs (gathered_more chunk s) cut
                (not_empty s.fragment_msg chunk started)
              ∙ ap (λ xs. some (whole xs s)) (append_assoc s.fragment_msg chunk b))

      -- The first fragment brings the header along.
      receive_first :
          (max seq : ℕ) (bytes : List ℕ) (fs : List (ℕ × List ℕ)) (s : ReliableInputStream c)
          → Fragmented max bytes fs
          → s.fragment_msg ≡ []
          → receive_all seq fs s
            ≡ some (
                whole
                  (header_bytes (next_header info stream_id (SeqNum.add_int seq (pos 1))) ++ bytes)
                  s)
      receive_first max seq bytes fs s (last _ short) fresh =
          rw (receive_one _ 3 bytes s, fresh) refl
      receive_first max seq bytes fs s (more chunk {bytes = b} {fs = gs} size cut) fresh =
          let h = next_header info stream_id (SeqNum.add_int seq (pos 1)) in
          rw (receive_one _ 1 chunk s, fresh)
            (receive_rest max (SeqNum.add_int seq (pos 1)) b gs
                (record s {
                  fragment_msg = header_bytes h ++ chunk;
                  fragment_message_available = false;
                })
                cut refl
              ∙ ap (λ xs. some (whole xs s)) (append_assoc (header_bytes h) chunk b))

-- A submessage too large for the MTU, once it is cut by `push_submessage` and its fragments have been received in order by an input stream with no fragment in hand, is handed out by `pop_fragment_message` as one message, which is read with the sender's header, the submessage's own header and its bytes, and the input stream is left with no fragment.
pub reassembled :
    (c : Cdr) (info : SessionInfo) (stream_id id : ℕ) (sub : Submessage) (fuel depth : ℕ)
    (out : ReliableOutputStream c) (in_stream : ReliableInputStream c)
    → length info.client_key ≡ 4
    → length sub.bytes ≡ sub.serialized_size
    → has_room c depth out ≡ true
    → info.mtu < header_length info stream_id + (4 + sub.serialized_size)
    → header_length info stream_id + 4 < info.mtu
    → info.mtu < 2 ^ 16
    → 4 + sub.serialized_size < 2 ^ 16
    → 4 + sub.serialized_size ≤ fuel
    → in_stream.fragment_msg ≡ []
    → (fs : List (ℕ × List ℕ)) × (after : ReliableInputStream c) × (message : List ℕ)
      × (push_submessage c fuel depth info stream_id id sub out
          ≡ some (true, push_fragments c info stream_id (header_length info stream_id + 4) fs out))
      × (receive_all c info stream_id
            (header_length info stream_id + 4)
            out.last_unacked
            fs
            in_stream
          ≡ some after)
      × ((pop_fragment_message c after).0 ≡ some (Input.create c message))
      × ReadsAs c message
          (next_header info stream_id (SeqNum.add_int out.last_unacked (pos 1)))
          (record { submessage_id = id; flags = 1; submessage_length = sub.serialized_size })
          sub.bytes
      × ((pop_fragment_message c after).1
          ≡ record in_stream { fragment_msg = []; fragment_message_available = false })
unfolding pop_fragment_message
reassembled c info stream_id id sub fuel depth out in_stream key true_size room large wide small
      short enough fresh =
    let headers = header_length info stream_id + 4 in
    let header : SubmessageHeader = record {
      submessage_id = id;
      flags = 1;
      submessage_length = sub.serialized_size;
    } in
    let whole_size : sub.serialized_size % 2 ^ 16 ≡ sub.serialized_size = omega arith in
    let (fs, cut, done) =
      push_submessage-Fragmented c info stream_id key id sub true_size fuel depth out room large
        wide small short enough in
    let h = next_header info stream_id (SeqNum.add_int out.last_unacked (pos 1)) in
    let bytes = header_bytes h ++ (subheader_bytes (submessage_header id sub) ++ sub.bytes) in
    (
      fs,
      record in_stream { fragment_msg = bytes; fragment_message_available = true },
      bytes,
      done,
      receive_first c info stream_id headers key (λ seq. refl) _ out.last_unacked _ fs in_stream cut
          fresh,
      refl,
      subst
          (λ n.
            ReadsAs c
              (header_bytes h
                ++ (subheader_bytes
                      (record { submessage_id = id; flags = 1; submessage_length = n })
                    ++ sub.bytes))
              h header sub.bytes)
          (sym whole_size) (message_bytes-ReadsAs c h header sub.bytes key true_size),
      refl,
    )
