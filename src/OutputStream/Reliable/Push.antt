-- ===== src/OutputStream/Reliable/Push.antt =====
-- `push_submessage` as a whole.

use micro_xrce_dds_agent.Common.{
  ℕ, ◌+◌, ◌-◌, ◌%◌, ◌^◌, ◌≤◌, ◌<◌, ◌≡◌, refl, sym, ap, ap₂, ◌∙◌, true, false, List, ◌++◌, some,
  length, arith, leb, ==_iff,
}
use micro_xrce_dds_agent.Cdr.{Cdr}
use micro_xrce_dds_agent.Message.Header.{
  SubmessageHeader, header_size, subheader_size, serialize_subheader,
}
use micro_xrce_dds_agent.Message.Header.RoundTrip.{
  header_size_lem, subheader_size_lem, serialize_subheader-Puts, header_bytes, subheader_bytes,
}
use micro_xrce_dds_agent.Message.Output.{Submessage}
use micro_xrce_dds_agent.OutputStream.BestEffort.{next_header}
use micro_xrce_dds_agent.OutputStream.Types.{SessionInfo}
use micro_xrce_dds_agent.OutputStream.Reliable.{
  ReliableOutputStream, has_room, push_submessage, push_sized, push_buffer, all_cut, fragment_loop,
}
use micro_xrce_dds_agent.OutputStream.Reliable.Fragments.{Fragmented, push_fragments}
use micro_xrce_dds_agent.OutputStream.Reliable.Fragments.Loop
use micro_xrce_dds_agent.Cdr.Sequence.{Puts-put}

abbrev pub header_length : SessionInfo → ℕ → ℕ
header_length info stream_id = length (header_bytes (next_header info stream_id 0))

abbrev pub submessage_header : ℕ → Submessage → SubmessageHeader
submessage_header id sub = record {
  submessage_id = id;
  flags = 1;
  submessage_length = sub.serialized_size % 2 ^ 16;
}

module _ (c : Cdr) (info : SessionInfo) (stream_id : ℕ) (key : length info.client_key ≡ 4) where
  sizes :
      (header_size c (next_header info stream_id 0) 0 ≡ (header_length info stream_id))
      × (subheader_size c 0 ≡ 4)
  sizes = (header_size_lem c (next_header info stream_id 0) key, subheader_size_lem c 0 refl)

  module _ (id : ℕ) (sub : Submessage) (true_size : length sub.bytes ≡ sub.serialized_size) where
    -- The buffer of the submessage that is cut into fragments.
    serialized :
        let (written, w) =
          serialize_subheader c (submessage_header id sub) (c.writer (4 + sub.serialized_size)) in
        let (complete, w') = c.put sub.bytes w in
        (written ≡ true)
        × (complete ≡ true)
        × (c.written w' ≡ subheader_bytes (submessage_header id sub) ++ sub.bytes)
    serialized =
        let w0 = c.writer (4 + sub.serialized_size) in
        let start = c.written-writer (4 + sub.serialized_size) in
        let cap = c.capacity-writer (4 + sub.serialized_size) in
        let p =
          serialize_subheader-Puts c (submessage_header id sub) w0 (rw start refl)
            (rw (start, cap) (omega arith)) in
        let q =
          Puts-put c sub.bytes (serialize_subheader c (submessage_header id sub) w0).1
            (rw (p.bytes, p.room, start, cap) (omega arith)) in
        (
          p.done,
          q.done,
          q.bytes
              ∙ ap (λ xs. xs ++ sub.bytes)
                  (p.bytes ∙ ap (λ xs. xs ++ subheader_bytes (submessage_header id sub)) start),
        )

    cut_buffer :
        (fuel : ℕ) (buf : List ℕ) (s : ReliableOutputStream c)
        → (header_length info stream_id) + 4 < info.mtu
        → info.mtu < 2 ^ 16
        → 0 < length buf
        → length buf < 2 ^ 16
        → length buf ≤ fuel
        → (fs : List (ℕ × List ℕ)) × Fragmented
            (info.mtu - (header_length info stream_id) - 4)
            buf
            fs
          × (push_buffer c fuel info stream_id (header_length info stream_id) 4 (length buf) buf s
              ≡ some
                  (true, push_fragments c info stream_id ((header_length info stream_id) + 4) fs s))
    unfolding push_buffer Loop.loop
    cut_buffer fuel buf s wide small filled short enough =
        let max_size : (info.mtu + 2 ^ 64 - (header_length info stream_id) - 4) % 2 ^ 64
            ≡ info.mtu - (header_length info stream_id) - 4 =
          omega arith in
        let ends =
          Loop.loop_lem c info stream_id key ((header_length info stream_id) + 4) buf
            (info.mtu - (header_length info stream_id) - 4) (omega arith) (omega arith) short
            (omega arith) (λ seq. refl) fuel (record { serialized_size = 0; flags = 1; stream = s })
            filled refl (omega arith) in
        (
          ends.fragments,
          ends.cut,
          ap
                (λ m. all_cut c (length buf) (
                  fragment_loop c info stream_id buf (length buf)
                    ((header_length info stream_id) + 4) m fuel
                    (record { serialized_size = 0; flags = 1; stream = s })))
                max_size
              ∙ ap (all_cut c (length buf)) ends.result
              ∙ ap₂ (λ b t. some (b, t)) ((==_iff _ _).1 ends.complete) ends.stored,
        )

    -- A submessage that does not fit the MTU with its headers is cut into fragments that do, which are stored in order under consecutive numbers, and the call succeeds, when the stream has room, the MTU is below 2^16 and greater than the two headers of a fragment, and the submessage with its header is shorter than 2^16 bytes; at most as many rounds are needed as that is bytes. The bytes of the submessage are as many as it says, and the client key is four octets.
    pub push_submessage-Fragmented :
        (fuel depth : ℕ) (s : ReliableOutputStream c)
        → has_room c depth s ≡ true
        → info.mtu < (header_length info stream_id) + (4 + sub.serialized_size)
        → (header_length info stream_id) + 4 < info.mtu
        → info.mtu < 2 ^ 16
        → 4 + sub.serialized_size < 2 ^ 16
        → 4 + sub.serialized_size ≤ fuel
        → (fs : List (ℕ × List ℕ)) × Fragmented
            (info.mtu - (header_length info stream_id) - 4)
            (subheader_bytes (submessage_header id sub) ++ sub.bytes)
            fs
          × (push_submessage c fuel depth info stream_id id sub s
              ≡ some
                  (true, push_fragments c info stream_id ((header_length info stream_id) + 4) fs s))
    unfolding push_submessage push_sized
    push_submessage-Fragmented fuel depth s room large wide small short enough =
        let over : leb ((header_length info stream_id) + (4 + sub.serialized_size)) info.mtu
            ≡ false =
          ground arith in
        let (written, complete, bytes) = serialized in
        let buf = subheader_bytes (submessage_header id sub) ++ sub.bytes in
        let size : length buf ≡ 4 + sub.serialized_size = omega (arith, true_size) in
        let (fs, cut, done) =
          cut_buffer fuel buf s wide small (omega arith) (omega arith) (omega arith) in
        (
          fs,
          cut,
          rw room (
              ap₂ (λ h k. push_sized c fuel info stream_id id sub s h k) sizes.0 sizes.1
              ∙ rw (over, written, complete)
                  (ap₂
                      (λ n b.
                        push_buffer c fuel info stream_id (header_length info stream_id) 4 n b s)
                      (sym size) bytes
                    ∙ done)),
        )
