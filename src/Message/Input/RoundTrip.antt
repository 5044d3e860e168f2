-- ===== src/Message/Input/RoundTrip.antt =====
-- Reading back what OutputMessage.hpp wrote.
use micro_xrce_dds_agent.Common.{
  ℕ, ◌+◌, ◌-◌, ◌%◌, ◌^◌, ◌≤◌, ◌<◌, ◌≡◌, refl, sym, ap, subst₂, ◌∙◌, Bool, true, false, List, [],
  ◌++◌, some, length, length-append, arith, ltb, if◌then◌else◌, lt→ltb,
}
use micro_xrce_dds_agent.Message.Input.Count.{count_round_stops}
use micro_xrce_dds_agent.Cdr.{Cdr}
use micro_xrce_dds_agent.Cdr.Sequence.{Gets}
use micro_xrce_dds_agent.Message.Header.{
  MessageHeader, SubmessageHeader, default_header, default_subheader, deserialize_header,
  deserialize_subheader,
}
use micro_xrce_dds_agent.Message.Header.RoundTrip.{
  IsHeader, header_bytes, subheader_bytes, header_aligned, deserialize_header-Gets,
  deserialize_subheader-Gets,
}
use micro_xrce_dds_agent.Message.Output
use micro_xrce_dds_agent.Message.Output.{Submessage}
use micro_xrce_dds_agent.Message.Output.Bytes.{contents-create, append_submessage_lem}
use mathlib.Core.List.{append-nil}
use micro_xrce_dds_agent.Message.Input.{
  InputMessage, create, count_round, count_loop, count_submessages, prepare_next_submessage,
  get_raw_payload, align_read, message,
}

module _ (c : Cdr) where
  -- A message of a header and a submessage.
  abbrev pub message_bytes : MessageHeader → SubmessageHeader → List ℕ → List ℕ
  message_bytes h sub payload = header_bytes h ++ (subheader_bytes sub ++ payload)

  align_read_lem :
      (r : c.Reader)
      → c.position r % 4 ≡ 0
      → (c.rest (align_read c r) ≡ c.rest r) × (c.position (align_read c r) ≡ c.position r)
  unfolding align_read
  align_read_lem r e =
      let none_needed : (4 - c.position r % 4) % 4 ≡ 0 = omega arith in
      rw (none_needed, align_read)
        (let (p, q) = c.jump_read_some [] (c.rest r) r refl in (p, omega (arith, q)))

  ordered_rest :
      (b : Bool) (order : ℕ) (r : c.Reader)
      → c.rest (if b then r else c.change_endianness order r) ≡ c.rest r
  ordered_rest true order r = refl
  ordered_rest false order r = (c.change_endianness_lem order r).0

  module _ (h : MessageHeader) (sub : SubmessageHeader) (payload : List ℕ) (v : IsHeader h) where
    -- The state behind the header, which is a whole number of words.
    header_read :
        let p = deserialize_header c (default_header, c.reader (message_bytes h sub payload)) in
        (p.0 ≡ true)
        × (p.1 ≡ record h {
          client_key = if ltb h.session_id 128 then h.client_key else default_header.client_key;
        })
        × (c.rest p.2 ≡ subheader_bytes sub ++ payload)
        × (c.position p.2 ≡ length (header_bytes h))
    header_read =
        let g =
          deserialize_header-Gets c h default_header (c.reader (message_bytes h sub payload))
            (subheader_bytes sub ++ payload) v (c.rest-reader _) (rw c.position-reader refl) in
        (
          g.done,
          g.value,
          g.left,
          omega (arith, g.moved, c.position-reader (message_bytes h sub payload)),
        )

    abbrev AtSubmessage : c.Reader → Type 0
    AtSubmessage r =
        (c.rest r ≡ subheader_bytes sub ++ payload) × (c.position r ≡ length (header_bytes h))

    subheader_read :
        (h0 : SubmessageHeader) (r : c.Reader)
        → AtSubmessage r
        → Gets c SubmessageHeader
            (align_read c r)
            (deserialize_subheader c (h0, align_read c r))
            sub
            4
            payload
          × (ltb (c.position (align_read c r)) (length (message_bytes h sub payload)) ≡ true)
    subheader_read h0 r (e, p) =
        let (ae, ap) = align_read_lem r (rw p (header_aligned h v)) in
        (
          deserialize_subheader-Gets c sub h0 (align_read c r) payload (ae ∙ e)
              (rw (ap, p) (omega (arith, header_aligned h v))),
          rw (ap, p)
              (lt→ltb _ _
                (omega (arith, length-append (header_bytes h) (subheader_bytes sub ++ payload)))),
        )

    counted_one :
        (r : c.Reader)
        → AtSubmessage r
        → (count_round c (length (message_bytes h sub payload)) 0 r).1 ≡ 1
    unfolding count_round
    counted_one r at =
        let (g, inside) = subheader_read default_subheader r at in
        rw (inside, count_round) (rw g.done refl)

    count_lem : count_submessages c (message_bytes h sub payload) ≡ some 1
    unfolding count_submessages count_loop
    count_lem =
        let (done, _, left, moved) = header_read in
        let r = (deserialize_header c (default_header, c.reader (message_bytes h sub payload))).2 in
        rw done (
          rw (count_round_stops c (length (message_bytes h sub payload)) 0 r).0
            (ap some (counted_one r (left, moved))))

    -- The message read from these bytes is valid, with the header and a submessage to be read.
    pub create_lem :
        let m : InputMessage c =
          message c
            (message_bytes h sub payload)
            (record h {
              client_key = if ltb h.session_id 128 then h.client_key else default_header.client_key;
            })
            (deserialize_header c (default_header, c.reader (message_bytes h sub payload))).2
            true in
        (create c (message_bytes h sub payload) ≡ some m) × AtSubmessage m.deserializer
    unfolding create
    create_lem =
        let (done, value, left, moved) = header_read in
        (rw (count_lem, done, value) refl, (left, moved))

    pub prepare_lem :
        (m : InputMessage c)
        → m.buf ≡ message_bytes h sub payload
        → AtSubmessage m.deserializer
        → let (done, m') = prepare_next_submessage c m in
          (done ≡ true)
          × (m'.buf ≡ m.buf)
          × (m'.header ≡ m.header)
          × (m'.subheader ≡ sub)
          × (c.rest m'.deserializer ≡ payload)
    unfolding prepare_next_submessage
    prepare_lem m e at =
        let (g, inside) = subheader_read m.subheader m.deserializer at in
        rw (e, inside) (g.done, refl, refl, g.value, ordered_rest _ _ _ ∙ g.left)

  pub raw_payload_lem :
      (m : InputMessage c) (payload : List ℕ)
      → c.rest m.deserializer ≡ payload
      → length payload ≡ m.subheader.submessage_length
      → (get_raw_payload c (length payload) m).0 ≡ some payload
  unfolding get_raw_payload
  raw_payload_lem m payload e size =
      let (r', g, _, _) =
        c.get_array_some payload [] m.deserializer (e ∙ sym (append-nil payload)) in
      ground (arith, g)

-- `buf` is read as a valid message with this header, submessage header and raw payload. A header
-- whose session id is 128 or more carries no client key.
pub record ReadsAs (c : Cdr) (buf : List ℕ) (h : MessageHeader) (sub : SubmessageHeader)
    (payload : List ℕ) : Type 0 where
  pub read : InputMessage c
  pub created : create c buf ≡ some read
  pub is_valid : read.valid_xrce_message ≡ true
  pub same_header : read.header ≡ record h {
    client_key = if ltb h.session_id 128 then h.client_key else default_header.client_key;
  }
  pub prepared : (prepare_next_submessage c read).0 ≡ true
  pub same_subheader : (prepare_next_submessage c read).1.subheader ≡ sub
  pub same_payload :
      (get_raw_payload c (length payload) (prepare_next_submessage c read).1).0 ≡ some payload

pub message_bytes-ReadsAs :
    (c : Cdr) (h : MessageHeader) (sub : SubmessageHeader) (payload : List ℕ)
    → IsHeader h
    → length payload ≡ sub.submessage_length
    → ReadsAs c (message_bytes c h sub payload) h sub payload
message_bytes-ReadsAs c h sub payload v size =
    let (made, at) = create_lem c h sub payload v in
    let (done, _, _, same, left) = prepare_lem c h sub payload v _ refl at in
    record {
      read = _;
      created = made;
      is_valid = refl;
      same_header = refl;
      prepared = done;
      same_subheader = same;
      same_payload =
          raw_payload_lem c _ payload left (size ∙ ap (λ s. s.submessage_length) (sym same));
    }

-- A message of a header and one submessage, written by OutputMessage into a buffer that holds both, is read by InputMessage as a valid message with that header (the client key only for session ids below 128), that submessage header, and a raw payload of those bytes, for a submessage whose size is stated truly and fits 16 bits.
pub parse-append_submessage :
    (c : Cdr) (h : MessageHeader) (id : ℕ) (sub : Submessage) (flags len : ℕ)
    → IsHeader h
    → length sub.bytes ≡ sub.serialized_size
    → sub.serialized_size < 2 ^ 16
    → length (header_bytes h) + 4 + length sub.bytes ≤ len
    → let (appended, out) = Output.append_submessage c id sub flags (Output.create c h len) in
      (appended ≡ true)
      × ReadsAs c
          (Output.contents c out)
          h
          (record { submessage_id = id; flags = flags; submessage_length = sub.serialized_size })
          sub.bytes
parse-append_submessage c h id sub flags len v true_size small room =
    let (start, cap) = contents-create c h len v (omega arith) in
    let (done, bytes, _) =
      append_submessage_lem c id sub flags (Output.create c h len) (rw start (header_aligned h v))
        (rw (start, cap) room) in
    let size : sub.serialized_size % 2 ^ 16 ≡ sub.serialized_size = omega arith in
    (
      done,
      subst₂
          (λ b s.
            ReadsAs c b h (record { submessage_id = id; flags = flags; submessage_length = s })
              sub.bytes)
          (sym (rw (start, size) at bytes)) refl
          (message_bytes-ReadsAs c h _ sub.bytes v true_size),
    )
