-- ===== src/Message/Header.antt =====
-- src/cpp/types/MessageHeader.cpp and src/cpp/types/SubMessageHeader.cpp.
pub mod RoundTrip
use micro_xrce_dds_agent.Common.{ℕ, ◌+◌, ◌-◌, Bool, true, List, [], ◌∷◌, ltb, if◌then◌else◌}
use micro_xrce_dds_agent.Cdr.{Cdr}
use micro_xrce_dds_agent.Cdr.Sequence

-- A client key is an array of four octets.
pub record MessageHeader : Type 0 where
  pub session_id : ℕ
  pub stream_id : ℕ
  pub sequence_nr : ℕ
  pub client_key : List ℕ

pub record SubmessageHeader : Type 0 where
  pub submessage_id : ℕ
  pub flags : ℕ
  pub submessage_length : ℕ

-- The values of the default constructors; CREATE_CLIENT is 0.
abbrev pub default_header : MessageHeader
default_header = record {
  session_id = 0;
  stream_id = 0;
  sequence_nr = 0;
  client_key = 0 ∷ 0 ∷ 0 ∷ 0 ∷ [];
}

abbrev pub default_subheader : SubmessageHeader
default_subheader = record { submessage_id = 0; flags = 0; submessage_length = 0 }

module _ (c : Cdr) where
  infixl 5 ◌>>◌
  abbrev ◌>>◌ : Sequence.Write c → Sequence.Write c → Sequence.Write c
  m >> k = Sequence.◌>>◌ c m k

  -- `MessageHeader::getCdrSerializedSize`.
  unfoldable pub header_size : MessageHeader → ℕ → ℕ
  header_size h initial =
      let a = initial + (1 + c.alignment initial 1) in
      let b = a + (1 + c.alignment a 1) in
      let d = b + (2 + c.alignment b 2) in
      (if ltb h.session_id 128 then d + (4 + c.alignment d 1) else d) - initial

  -- `SubmessageHeader::getCdrSerializedSize`.
  unfoldable pub subheader_size : ℕ → ℕ
  subheader_size initial =
      let a = initial + (1 + c.alignment initial 1) in
      let b = a + (1 + c.alignment a 1) in (b + (2 + c.alignment b 2)) - initial

  abbrev when : Bool → Sequence.Write c → Sequence.Write c
  when test m w = if test then m w else (true, w)

  -- `MessageHeader::serialize`.
  unfoldable pub serialize_header : MessageHeader → Sequence.Write c
  serialize_header h = do
    c.put (h.session_id ∷ [])
    c.put (h.stream_id ∷ [])
    c.put_u16 h.sequence_nr
    when (ltb h.session_id 128) (c.put h.client_key)

  -- `SubmessageHeader::serialize`.
  unfoldable pub serialize_subheader : SubmessageHeader → Sequence.Write c
  serialize_subheader h = do
    c.put (h.submessage_id ∷ [])
    c.put (h.flags ∷ [])
    c.put_u16 h.submessage_length

  abbrev read_client_key : Sequence.Read c MessageHeader
  read_client_key (h, r) =
      if ltb h.session_id 128
      then Sequence.read_array c MessageHeader 4 (λ x t. record t { client_key = x }) (h, r)
      else (true, h, r)

  -- `MessageHeader::deserialize`: the header so far, and whether an exception left it.
  unfoldable pub deserialize_header : Sequence.Read c MessageHeader
  deserialize_header s =
      Sequence.and_then c T (Sequence.read_octet c T (λ x t. record t { session_id = x }) s) λ s.
        Sequence.and_then c T (Sequence.read_octet c T (λ x t. record t { stream_id = x }) s) λ s.
          Sequence.and_then c T (Sequence.read_u16 c T (λ x t. record t { sequence_nr = x }) s)
            read_client_key
    where
      T : Type 0
      T = MessageHeader

  -- `SubmessageHeader::deserialize`.
  unfoldable pub deserialize_subheader : Sequence.Read c SubmessageHeader
  deserialize_subheader s =
      Sequence.and_then c T (Sequence.read_octet c T (λ x t. record t { submessage_id = x }) s) λ s.
        Sequence.and_then c T (Sequence.read_octet c T (λ x t. record t { flags = x }) s)
          (Sequence.read_u16 c T (λ x t. record t { submessage_length = x }))
    where
      T : Type 0
      T = SubmessageHeader
