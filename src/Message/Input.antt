-- ===== src/Message/Input.antt =====
-- include/uxr/agent/message/InputMessage.hpp: a received message and the place read up to.
pub mod Count
pub mod RoundTrip
use micro_xrce_dds_agent.Common.{
  ℕ, zero, suc, ◌+◌, ◌-◌, ◌%◌, Bool, true, false, ◌&&◌, List, [], Option, none, some, length, take,
  replicate, ltb, leb, ◌==◌, if◌then◌else◌,
}
use micro_xrce_dds_agent.Cdr.{Cdr}
use micro_xrce_dds_agent.Message.Header.{
  MessageHeader, SubmessageHeader, default_header, default_subheader, deserialize_header,
  deserialize_subheader,
}

module _ (c : Cdr) where
  pub record InputMessage : Type 0 where
    pub buf : List ℕ
    pub header : MessageHeader
    pub subheader : SubmessageHeader
    pub deserializer : c.Reader
    pub valid_xrce_message : Bool

  -- `jump((4 - (position & 3)) & 3)`.
  unfoldable pub align_read : c.Reader → c.Reader
  align_read r = c.jump_read ((4 - c.position r % 4) % 4) r

  -- One round of the loop of `count_submessages`: the new `rv`, the count and the reader.
  unfoldable pub count_round : ℕ → ℕ → c.Reader → Bool × ℕ × c.Reader
  unfolding align_read
  count_round size count r =
      let r' = align_read r in
      if ltb (c.position r') size
      then (let (done, _, r'') = deserialize_subheader c (default_subheader, r') in
          (false, if done then count + 1 else count, r''))
      else (false, count, r')

  -- `do … while (rv)`.
  unfoldable pub count_loop : ℕ → ℕ → ℕ → c.Reader → ℕ
  unfolding count_round
  count_loop zero size count r = count
  count_loop (suc fuel) size count r =
      let (rv, count', r') = count_round size count r in
      let again = count_loop fuel size count' r' in if rv then again else count'

  -- `none` is the exception of a header that the buffer does not hold, which is not caught here.
  -- Every round that counts reads four bytes, so as many rounds as bytes are enough.
  unfoldable pub count_submessages : List ℕ → Option ℕ
  unfolding count_loop
  count_submessages buf =
      let (done, _, r) = deserialize_header c (default_header, c.reader buf) in
      if done then some (count_loop (suc (length buf)) (length buf) 0 r) else none

  abbrev pub message : List ℕ → MessageHeader → c.Reader → Bool → InputMessage
  message buf header r valid = record {
    buf = buf;
    header = header;
    subheader = default_subheader;
    deserializer = r;
    valid_xrce_message = valid;
  }

  -- The submessages are counted only behind a header that could be read.
  abbrev pub check_count : List ℕ → Bool × MessageHeader × c.Reader → Option ℕ → Option InputMessage
  check_count buf (false, header, r) count = some (message buf header r false)
  check_count buf (true, header, r) none = none
  check_count buf (true, header, r) (some n) = some (message buf header r (ltb 0 n))

  -- The constructor.
  unfoldable pub create : List ℕ → Option InputMessage
  unfolding count_submessages
  create buf =
      check_count buf (deserialize_header c (default_header, c.reader buf)) (count_submessages buf)

  unfoldable pub get_submessage_id : List ℕ → Option ℕ
  unfolding align_read
  get_submessage_id buf =
      let (done, _, r) = deserialize_header c (default_header, c.reader buf) in
      let r' = align_read r in
      let (found, subheader, _) = deserialize_subheader c (default_subheader, r') in
      if done
      then (if ltb (c.position r') (length buf)
          then (if found then some subheader.submessage_id else none)
          else some default_subheader.submessage_id)
      else none

  -- The endianness of the flags is the one in force afterwards, whether it is set or already so.
  unfoldable pub prepare_next_submessage : InputMessage → Bool × InputMessage
  unfolding align_read
  prepare_next_submessage m =
      let r = align_read m.deserializer in
      let (done, subheader, r') = deserialize_subheader c (m.subheader, r) in
      let order = subheader.flags % 2 in
      let ordered = if order == c.endianness r' then r' else c.change_endianness order r' in
      if ltb (c.position r) (length m.buf)
      then (done, record m { subheader = subheader; deserializer = ordered })
      else (false, record m { deserializer = r })

  unfoldable pub get_raw_header : InputMessage → List ℕ
  get_raw_header m = take (if ltb m.header.session_id 128 then 8 else 4) m.buf

  -- The bytes that the caller's buffer receives, where it receives any.
  unfoldable pub get_raw_payload : ℕ → InputMessage → Option (List ℕ) × InputMessage
  get_raw_payload len m =
      let wanted = m.subheader.submessage_length in
      if leb wanted len
      then (elim (c.get_array wanted m.deserializer) [
        | none ↦ (none, m)
        | some (bytes, r) ↦ (some bytes, record m { deserializer = r })
      ])
      else (none, m)
