-- ===== src/Message/Output.antt =====
-- include/uxr/agent/message/OutputMessage.hpp: a message under construction in its buffer.
pub mod Bytes
use micro_xrce_dds_agent.Common.{ℕ, ◌+◌, ◌-◌, ◌%◌, ◌^◌, Bool, true, false, List, length}
use micro_xrce_dds_agent.Cdr.{Cdr}
use micro_xrce_dds_agent.Cdr.Sequence
use micro_xrce_dds_agent.Message.Header.{
  MessageHeader, SubmessageHeader, serialize_header, serialize_subheader,
}

-- What the code uses of a generated submessage type: `getCdrSerializedSize()`, and the bytes that
-- `serialize` writes from an aligned position on.
pub record Submessage : Type 0 where
  pub serialized_size : ℕ
  pub bytes : List ℕ

module _ (c : Cdr) where
  -- `buf_`, `fastbuffer_` and `serializer_`; the capacity of the writer is `len_`.
  pub record OutputMessage : Type 0 where
    pub serializer : c.Writer

  -- The constructor does not look at whether the header was serialized.
  unfoldable pub create : MessageHeader → ℕ → OutputMessage
  create header len = record { serializer = (serialize_header c header (c.writer len)).1 }

  -- `get_buf` up to `get_len`.
  abbrev pub contents : OutputMessage → List ℕ
  contents m = c.written m.serializer

  -- The padding to the next multiple of four.
  abbrev pub padding : ℕ → ℕ
  padding n = (4 - n % 4) % 4

  unfoldable pub align : c.Writer → c.Writer
  align w = c.jump (padding (length (c.written w))) w

  abbrev pub wrap : Bool × c.Writer → Bool × OutputMessage
  wrap (rv, w) = (rv, record { serializer = w })

  unfoldable pub append_subheader : ℕ → ℕ → ℕ → OutputMessage → Bool × OutputMessage
  unfolding align
  append_subheader submessage_id flags submessage_len m =
      wrap (serialize_subheader c subheader (align m.serializer))
    where
      subheader : SubmessageHeader
      subheader = record {
        submessage_id = submessage_id;
        flags = flags;
        submessage_length = submessage_len % 2 ^ 16;
      }

  abbrev pub and_serialize : List ℕ → Bool × OutputMessage → Bool × OutputMessage
  and_serialize bytes (true, m) = wrap (c.put bytes m.serializer)
  and_serialize bytes (false, m) = (false, m)

  -- `append_submessage`, whose callers leave the flags at their default, 1.
  unfoldable pub append_submessage : ℕ → Submessage → ℕ → OutputMessage → Bool × OutputMessage
  unfolding append_subheader
  append_submessage submessage_id submessage flags m =
      and_serialize submessage.bytes
        (append_subheader submessage_id flags submessage.serialized_size m)

  unfoldable pub append_raw_payload : ℕ → List ℕ → ℕ → OutputMessage → Bool × OutputMessage
  unfolding append_subheader
  append_raw_payload submessage_id buf flags m =
      and_serialize buf (append_subheader submessage_id flags (length buf) m)

  unfoldable pub append_fragment : SubmessageHeader → List ℕ → OutputMessage → Bool × OutputMessage
  unfolding align
  append_fragment subheader buf m =
      and_serialize buf (wrap (serialize_subheader c subheader (align m.serializer)))
