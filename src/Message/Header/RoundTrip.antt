-- ===== src/Message/Header/RoundTrip.antt =====
-- What the two headers look like in a buffer, and that they are read back.
use micro_xrce_dds_agent.Common.{
  ℕ, ◌+◌, ◌*◌, ◌%◌, ◌/◌, ◌≤◌, ◌≡◌, suc, refl, sym, subst, subst₂, true, List, [], ◌∷◌, ◌++◌, length,
  arith, ltb, if◌then◌else◌, Bool-cases, inl, inr,
}
use mathlib.Core.List.{append-nil}
use micro_xrce_dds_agent.Cdr.{Cdr}
use micro_xrce_dds_agent.Cdr.Sequence.{
  Puts, Puts-put, Puts-put_u16, Puts-then, Gets, Gets-octet, Gets-u16, Gets-array, Gets-then,
}
use micro_xrce_dds_agent.Message.Header.{
  MessageHeader, SubmessageHeader, header_size, subheader_size, serialize_header,
  serialize_subheader, deserialize_header, deserialize_subheader, read_client_key,
}

-- A client key has four octets.
abbrev pub IsHeader : MessageHeader → Type 0
IsHeader h = length h.client_key ≡ 4

abbrev pub header_bytes : MessageHeader → List ℕ
header_bytes h =
    h.session_id
    ∷ h.stream_id
    ∷ (h.sequence_nr % 256)
    ∷ (h.sequence_nr / 256)
    ∷ (if ltb h.session_id 128 then h.client_key else [])

-- Both headers are whole numbers of words.
pub header_aligned : (h : MessageHeader) → IsHeader h → length (header_bytes h) % 4 ≡ 0
header_aligned h v = elim (Bool-cases (ltb h.session_id 128)) [
  | inl e ↦ rw e (omega (arith, v))
  | inr e ↦ rw e refl
]

abbrev pub subheader_bytes : SubmessageHeader → List ℕ
subheader_bytes h =
    h.submessage_id ∷ h.flags ∷ (h.submessage_length % 256) ∷ (h.submessage_length / 256) ∷ []

u16_value : (n : ℕ) → n % 256 + 256 * (n / 256) ≡ n
u16_value n = omega arith

four_more : (n : ℕ) → 1 + (1 + (2 + n)) ≡ suc (suc (suc (suc n)))
four_more n = omega arith

module _ (c : Cdr) where
  pub subheader_size_lem : (n : ℕ) → n % 2 ≡ 0 → subheader_size c n ≡ 4
  unfolding subheader_size
  subheader_size_lem n e =
      simp c.alignment_one (omega (arith, c.alignment_two (n + 1 + 1) (omega arith)))

  pub header_size_lem :
      (h : MessageHeader) → IsHeader h → header_size c h 0 ≡ length (header_bytes h)
  unfolding header_size
  header_size_lem h v = simp c.alignment_one (ground (arith, c.alignment_two (0 + 1 + 1) refl))

  pub serialize_subheader-Puts :
      (h : SubmessageHeader) (w : c.Writer)
      → length (c.written w) % 2 ≡ 0
      → length (c.written w) + 4 ≤ c.capacity w
      → Puts c w (serialize_subheader c h w) (subheader_bytes h)
  unfolding serialize_subheader
  serialize_subheader-Puts h w even room =
      Puts-then c _ _ w (Puts-put c (h.submessage_id ∷ []) w (omega arith)) λ w1 e1 r1.
        Puts-then c _ _ w1 (Puts-put c (h.flags ∷ []) w1 (omega arith))
          λ w2 e2 r2. Puts-put_u16 c h.submessage_length w2 (omega arith) (omega arith)

  serialize_key-Puts :
      (h : MessageHeader) (w : c.Writer)
      → length (c.written w) + length (if ltb h.session_id 128 then h.client_key else [])
        ≤ c.capacity w
      → Puts c w
          (if ltb h.session_id 128 then c.put h.client_key w else (true, w))
          (if ltb h.session_id 128 then h.client_key else [])
  serialize_key-Puts h w room = elim (Bool-cases (ltb h.session_id 128)) [
    | inl e ↦ rw e (Puts-put c h.client_key w (rw e at room))
    | inr e ↦ rw e (record { done = refl; bytes = sym (append-nil (c.written w)); room = refl })
  ]

  -- A header that fits is written as its bytes.
  pub serialize_header-Puts :
      (h : MessageHeader) (w : c.Writer)
      → length (c.written w) % 2 ≡ 0
      → length (c.written w) + length (header_bytes h) ≤ c.capacity w
      → Puts c w (serialize_header c h w) (header_bytes h)
  unfolding serialize_header
  serialize_header-Puts h w even room =
      Puts-then c _ _ w (Puts-put c (h.session_id ∷ []) w (omega arith)) λ w1 e1 r1.
        Puts-then c _ _ w1 (Puts-put c (h.stream_id ∷ []) w1 (omega arith)) λ w2 e2 r2.
          Puts-then c _ _ w2 (Puts-put_u16 c h.sequence_nr w2 (omega arith) (omega arith))
            λ w3 e3 r3. serialize_key-Puts h w3 (omega arith)

  pub deserialize_subheader-Gets :
      (h h0 : SubmessageHeader) (r : c.Reader) (more : List ℕ)
      → c.rest r ≡ subheader_bytes h ++ more
      → c.position r % 2 ≡ 0
      → Gets c SubmessageHeader r (deserialize_subheader c (h0, r)) h 4 more
  unfolding deserialize_subheader
  deserialize_subheader-Gets h h0 r more e even =
      subst
        (λ n.
          Gets c T r (deserialize_subheader c (h0, r)) (record h { submessage_length = n }) 4 more)
        (u16_value h.submessage_length)
        (Gets-then c T r _ _ (Gets-octet c T _ h0 r e) λ r1 e1 p1.
          Gets-then c T r1 _ _ (Gets-octet c T _ _ r1 e1)
            λ r2 e2 p2. Gets-u16 c T _ _ r2 e2 (omega arith))
    where
      T : Type 0
      T = SubmessageHeader

  get_key :
      (h : MessageHeader) (key : List ℕ) (r : c.Reader) (more : List ℕ)
      → length h.client_key ≡ 4
      → c.rest r ≡ (if ltb h.session_id 128 then h.client_key else []) ++ more
      → Gets c MessageHeader r
          (read_client_key c (record h { client_key = key }, r))
          (record h { client_key = if ltb h.session_id 128 then h.client_key else key })
          (length (if ltb h.session_id 128 then h.client_key else []))
          more
  get_key h key r more four e = elim (Bool-cases (ltb h.session_id 128)) [
    | inl t ↦ rw (t, four) (Gets-array c MessageHeader 4 _ _ r h.client_key (rw t at e) four)
    | inr f ↦ rw f (record { done = refl; value = refl; left = rw f at e; moved = omega arith })
  ]

  -- Reading the bytes of a header gives its fields back; without a key, the key is left as it was.
  pub deserialize_header-Gets :
      (h h0 : MessageHeader) (r : c.Reader) (more : List ℕ)
      → IsHeader h
      → c.rest r ≡ header_bytes h ++ more
      → c.position r % 2 ≡ 0
      → Gets c MessageHeader r
          (deserialize_header c (h0, r))
          (record h { client_key = if ltb h.session_id 128 then h.client_key else h0.client_key })
          (length (header_bytes h))
          more
  unfolding deserialize_header
  deserialize_header-Gets h h0 r more v e even =
      subst₂
        (λ n k.
          Gets c T r (deserialize_header c (h0, r))
            (record h {
              sequence_nr = n;
              client_key = if ltb h.session_id 128 then h.client_key else h0.client_key;
            })
            k more)
        (u16_value h.sequence_nr)
        (four_more (length (if ltb h.session_id 128 then h.client_key else [])))
        (Gets-then c T r _ _ (Gets-octet c T _ h0 r e) λ r1 e1 p1.
          Gets-then c T r1 _ _ (Gets-octet c T _ _ r1 e1) λ r2 e2 p2.
            Gets-then c T r2 _ _ (Gets-u16 c T _ _ r2 e2 (omega arith)) λ r3 e3 p3.
              get_key (record h { sequence_nr = h.sequence_nr % 256 + 256 * (h.sequence_nr / 256) })
                h0.client_key r3 more v e3)
    where
      T : Type 0
      T = MessageHeader
