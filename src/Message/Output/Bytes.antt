-- ===== src/Message/Output/Bytes.antt =====
-- The bytes of a finished output message.
use micro_xrce_dds_agent.Common.{
  ℕ, ◌+◌, ◌%◌, ◌^◌, ◌≤◌, ◌≡◌, refl, ap, ◌∙◌, Bool, true, false, List, ◌++◌, length, arith,
}
use mathlib.Core.Bool.{false≢true}
use mathlib.Core.List.{append-nil, append_assoc}
use micro_xrce_dds_agent.Cdr.{Cdr}
use micro_xrce_dds_agent.Cdr.Sequence.{Puts, Puts-put, Puts-length}
use micro_xrce_dds_agent.Message.Header.{MessageHeader, SubmessageHeader}
use micro_xrce_dds_agent.Message.Header.RoundTrip.{
  IsHeader, header_bytes, subheader_bytes, serialize_header-Puts, serialize_subheader-Puts,
}
use micro_xrce_dds_agent.Message.Output.{
  Submessage, OutputMessage, create, contents, padding, align, append_submessage, append_fragment,
  wrap, and_serialize,
}

module _ (c : Cdr) where
  pub contents-create :
      (h : MessageHeader) (len : ℕ)
      → IsHeader h
      → length (header_bytes h) ≤ len
      → (contents c (create c h len) ≡ header_bytes h)
        × (c.capacity (create c h len).serializer ≡ len)
  unfolding create
  contents-create h len v room =
      let p =
        serialize_header-Puts c h (c.writer len) (rw c.written-writer refl)
          (rw (c.written-writer, c.capacity-writer) (omega arith)) in
      (
        p.bytes ∙ ap (λ xs. xs ++ header_bytes h) (c.written-writer len),
        p.room ∙ c.capacity-writer len,
      )

  align_lem :
      (w : c.Writer)
      → length (c.written w) % 4 ≡ 0
      → length (c.written w) ≤ c.capacity w
      → (c.written (align c w) ≡ c.written w) × (c.capacity (align c w) ≡ c.capacity w)
  unfolding align
  align_lem w aligned room =
      let none_needed : padding c (length (c.written w)) ≡ 0 = omega arith in
      rw (none_needed, align)
        (let (p, q) = c.jump_fits 0 w (omega arith) in (p ∙ append-nil (c.written w), q))

  -- What follows when the subheader is written and there is room for the payload.
  abbrev pub Appended : OutputMessage c → Bool × OutputMessage c → List ℕ → Type 0
  Appended m r bs =
      (r.0 ≡ true)
      × (contents c r.1 ≡ contents c m ++ bs)
      × (c.capacity r.1.serializer ≡ c.capacity m.serializer)

  and_serialize_lem :
      (sub bytes : List ℕ) (m : OutputMessage c) (w : c.Writer) (p : Bool × c.Writer)
      → c.written w ≡ contents c m
      → c.capacity w ≡ c.capacity m.serializer
      → Puts c w p sub
      → length (contents c m) + length sub + length bytes ≤ c.capacity m.serializer
      → Appended m (and_serialize c bytes (wrap c p)) (sub ++ bytes)
  and_serialize_lem sub bytes m w (false, w') ew ec s room = absurd (false≢true s.done)
  and_serialize_lem sub bytes m w (true, w') ew ec s room =
      let p = Puts-put c bytes w' (omega (arith, Puts-length c s, ap length ew, s.room)) in
      (
        p.done,
        p.bytes
            ∙ ap (λ xs. xs ++ bytes) (s.bytes ∙ ap (λ xs. xs ++ sub) ew)
            ∙ append_assoc (contents c m) sub bytes,
        p.room ∙ s.room ∙ ec,
      )

  -- A fragment that fits is written as its subheader and then its bytes.
  pub append_fragment_lem :
      (sub : SubmessageHeader) (bytes : List ℕ) (m : OutputMessage c)
      → length (contents c m) % 4 ≡ 0
      → length (contents c m) + 4 + length bytes ≤ c.capacity m.serializer
      → Appended m (append_fragment c sub bytes m) (subheader_bytes sub ++ bytes)
  unfolding append_fragment
  append_fragment_lem sub bytes m aligned room =
      let (ew, ec) = align_lem m.serializer aligned (omega arith) in
      let even : length (c.written (align c m.serializer)) % 2 ≡ 0 = rw ew (omega arith) in
      let fits : length (c.written (align c m.serializer)) + 4 ≤ c.capacity (align c m.serializer) =
        rw (ew, ec) (omega arith) in
      and_serialize_lem (subheader_bytes sub) bytes m _ _ ew ec
        (serialize_subheader-Puts c sub (align c m.serializer) even fits) room

  pub append_submessage_lem :
      (id : ℕ) (sub : Submessage) (flags : ℕ) (m : OutputMessage c)
      → length (contents c m) % 4 ≡ 0
      → length (contents c m) + 4 + length sub.bytes ≤ c.capacity m.serializer
      → let header : SubmessageHeader = record {
        submessage_id = id;
        flags = flags;
        submessage_length = sub.serialized_size % 2 ^ 16;
      } in
        Appended m (append_submessage c id sub flags m) (subheader_bytes header ++ sub.bytes)
  unfolding append_submessage append_fragment
  append_submessage_lem id sub flags m aligned room = append_fragment_lem _ sub.bytes m aligned room
