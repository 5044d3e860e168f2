-- ===== src/OutputStream/Reliable/Fragments.antt =====
-- How `push_submessage` cuts a submessage that does not fit the MTU.
pub mod Loop
use mathlib.Core.List.{append-nil, append_assoc}
use Prim.Native.Nat.{bit_or}
use micro_xrce_dds_agent.Common.{
  ℕ, zero, suc, ◌+◌, ◌-◌, ◌%◌, ◌^◌, ◌≤◌, ◌<◌, ◌≡◌, refl, sym, ap, ap₂, subst, ◌∙◌, Bool, true,
  false, List, [], ◌∷◌, ◌++◌, Option, none, some, length, length-append, take, drop,
  take-append-drop, length-take, length-drop, take_all, drop-drop, min, ◌⊎◌, ◌⊎◌, inl, inr,
  Bool-cases, arith, ltb, leb, if◌then◌else◌,
}
use micro_xrce_dds_agent.Common.Int.{pos}
use micro_xrce_dds_agent.Common.Dict.{emplace}
use micro_xrce_dds_agent.SeqNum
use micro_xrce_dds_agent.Cdr.{Cdr}
use micro_xrce_dds_agent.Message.Header.{MessageHeader, SubmessageHeader}
use micro_xrce_dds_agent.Message.Header.RoundTrip.{
  IsHeader, header_bytes, subheader_bytes, header_aligned,
}
use micro_xrce_dds_agent.Message.Output
use micro_xrce_dds_agent.Message.Output.{OutputMessage}
use micro_xrce_dds_agent.Message.Output.Bytes.{contents-create, append_fragment_lem}
use micro_xrce_dds_agent.OutputStream.BestEffort.{next_header}
use micro_xrce_dds_agent.OutputStream.Types.{SessionInfo, fragment_id}
use micro_xrce_dds_agent.OutputStream.Reliable.{
  ReliableOutputStream, Fragmenter, push_next, store_fragment, fragment_round, fragment_loop,
}

-- Bytes cut into pieces of `max` bytes and a last one of at most as many, with the flags of each
-- fragment: FLAG_LITTLE_ENDIANNESS, and in the last one FLAG_LAST_FRAGMENT too.
pub data Fragmented (max : ℕ) : List ℕ → List (ℕ × List ℕ) → Type 0 where
  last : (bytes : List ℕ) → length bytes ≤ max → Fragmented max bytes ((3, bytes) ∷ [])
  more :
      (chunk : List ℕ) {bytes : List ℕ} {fs : List (ℕ × List ℕ)}
      → length chunk ≡ max
      → Fragmented max bytes fs
      → Fragmented max (chunk ++ bytes) ((1, chunk) ∷ fs)

module _ (c : Cdr) (info : SessionInfo) (stream_id : ℕ) where
  abbrev pub fragment_subheader : ℕ → List ℕ → SubmessageHeader
  fragment_subheader flags chunk = record {
    submessage_id = fragment_id;
    flags = flags;
    submessage_length = length chunk;
  }

  -- The message of one fragment, in a buffer of just its size.
  pub fragment_message : ℕ → ℕ → ℕ → List ℕ → OutputMessage c
  fragment_message headers seq flags chunk =
      (Output.append_fragment c (fragment_subheader flags chunk) chunk
        (Output.create c (next_header info stream_id seq) (headers + length chunk))).1

  abbrev pub add_message : (ℕ → OutputMessage c) → ReliableOutputStream c → ReliableOutputStream c
  add_message message s =
      let next = SeqNum.add_int s.last_unacked (pos 1) in
      record s { last_unacked = next; messages = emplace next (message next) s.messages }

  -- The fragments stored one after the other, each under the next number.
  pub push_fragments : ℕ → List (ℕ × List ℕ) → ReliableOutputStream c → ReliableOutputStream c
  push_fragments headers [] s = s
  push_fragments headers ((flags, chunk) ∷ fs) s =
      push_fragments headers fs (add_message (λ seq. fragment_message headers seq flags chunk) s)

  -- `headers` is the size of both headers.
  abbrev pub Fits : ℕ → Type 0
  Fits headers = (seq : ℕ) → length (header_bytes (next_header info stream_id seq)) + 4 ≡ headers

  module _ (key : length info.client_key ≡ 4) (headers : ℕ) where
    pub fragment_built :
        Fits headers
        → (seq flags : ℕ) (chunk : List ℕ)
        → (Output.append_fragment c
            (fragment_subheader flags chunk)
            chunk
            (Output.create c (next_header info stream_id seq) (headers + length chunk))).0
          ≡ true
    fragment_built fits seq flags chunk =
        let h = next_header info stream_id seq in
        let (start, cap) =
          contents-create c h (headers + length chunk) key (omega (arith, fits seq)) in
        (append_fragment_lem c (fragment_subheader flags chunk) chunk
          (Output.create c h (headers + length chunk)) (rw start (header_aligned h key))
          (rw (start, cap) (omega (arith, fits seq)))).0

    -- What a fragment looks like on the wire.
    pub contents-fragment_message :
        Fits headers
        → (seq flags : ℕ) (chunk : List ℕ)
        → Output.contents c (fragment_message headers seq flags chunk)
          ≡ header_bytes (next_header info stream_id seq)
            ++ (subheader_bytes (fragment_subheader flags chunk) ++ chunk)
    unfolding fragment_message
    contents-fragment_message fits seq flags chunk =
        let h = next_header info stream_id seq in
        let (start, cap) =
          contents-create c h (headers + length chunk) key (omega (arith, fits seq)) in
        (append_fragment_lem c (fragment_subheader flags chunk) chunk
          (Output.create c h (headers + length chunk)) (rw start (header_aligned h key))
          (rw (start, cap) (omega (arith, fits seq)))).1
        ∙ ap (λ xs. xs ++ (subheader_bytes (fragment_subheader flags chunk) ++ chunk)) start
