-- ===== src/InputStream/Reliable.antt =====
-- `ReliableInputStream`: messages are kept by sequence number until those before them are
-- handled; fragments are gathered in one buffer. `depth` is RELIABLE_STREAM_DEPTH of the build.
pub mod Window
pub mod Delivery
pub mod Acknack
use Prim.Native.Nat.{bit_or, bit_and}
use micro_xrce_dds_agent.Common.{
  ℕ, zero, suc, ◌+◌, ◌*◌, ◌-◌, ◌^◌, Bool, true, false, not, ◌&&◌, List, [], ◌∷◌, ◌++◌, Option, none,
  some, length, replicate, is_empty, ltb, ◌==◌, if◌then◌else◌,
}
use micro_xrce_dds_agent.Common.Int.{pos}
use micro_xrce_dds_agent.Common.Dict.{Dict, find, erase, emplace}
use micro_xrce_dds_agent.SeqNum
use micro_xrce_dds_agent.Cdr.{Cdr}
use micro_xrce_dds_agent.Message.Input
use micro_xrce_dds_agent.Message.Input.{InputMessage}

-- `ACKNACK_Payload`: `nack_bitmap().at(0)` is `nack_high`, and `.at(1)` is `nack_low`.
pub record AcknackPayload : Type 0 where
  pub stream_id : ℕ
  pub first_unacked_seq_num : ℕ
  pub nack_high : ℕ
  pub nack_low : ℕ

abbrev pub flag_last_fragment : ℕ
flag_last_fragment = 2

module _ (c : Cdr) where
  pub record ReliableInputStream : Type 0 where
    pub last_handled : ℕ
    pub last_announced : ℕ
    pub messages : Dict (InputMessage c)
    pub fragment_msg : List ℕ
    pub fragment_message_available : Bool

  abbrev pub init : ReliableInputStream
  init = record {
    last_handled = 2 ^ 16 - 1;
    last_announced = 2 ^ 16 - 1;
    messages = [];
    fragment_msg = [];
    fragment_message_available = false;
  }

  unfoldable pub push_message :
      ℕ → ℕ → InputMessage c → ReliableInputStream → Bool × ReliableInputStream
  push_message depth seq_num message s =
      if SeqNum.gt seq_num s.last_handled && SeqNum.le seq_num (SeqNum.add s.last_handled depth)
      then (if SeqNum.gt seq_num s.last_announced
          then (
            true,
            record s { last_announced = seq_num; messages = emplace seq_num message s.messages },
          )
          else (elim (find seq_num s.messages) [
            | none ↦ (true, record s { messages = emplace seq_num message s.messages })
            | some m ↦ (false, s)
          ]))
      else (false, s)

  -- The message is built from the arguments only where it is stored.
  unfoldable pub emplace_message :
      {A : Type 0}
      → ℕ
      → ℕ
      → (A → InputMessage c)
      → A
      → ReliableInputStream
      → Bool × ReliableInputStream
  emplace_message depth seq_num make args s =
      if SeqNum.gt seq_num s.last_handled && SeqNum.le seq_num (SeqNum.add s.last_handled depth)
      then (if SeqNum.gt seq_num s.last_announced
          then (
            true,
            record s {
              last_announced = seq_num;
              messages = emplace seq_num (make args) s.messages;
            },
          )
          else (elim (find seq_num s.messages) [
            | none ↦ (true, record s { messages = emplace seq_num (make args) s.messages })
            | some m ↦ (false, s)
          ]))
      else (false, s)

  unfoldable pub pop_message : ReliableInputStream → Option (InputMessage c) × ReliableInputStream
  pop_message s =
      let next = SeqNum.add_int s.last_handled (pos 1) in
      elim (find next s.messages) [
        | none ↦ (none, s)
        | some m ↦ (some m, record s { last_handled = next; messages = erase next s.messages })
      ]

  abbrev announce : ℕ → ReliableInputStream → ReliableInputStream
  announce last_unacked s =
      if SeqNum.lt s.last_announced last_unacked
      then record s { last_announced = last_unacked }
      else s

  unfoldable pub update_from_heartbeat : ℕ → ℕ → ReliableInputStream → ReliableInputStream
  update_from_heartbeat first_unacked last_unacked s = announce last_unacked (
      if SeqNum.lt (SeqNum.add_int s.last_handled (pos 1)) first_unacked
      then record s { last_handled = SeqNum.sub_int first_unacked (pos 1) }
      else s)

  -- Whether the number `i` after the next one is announced and its message is not there.
  unfoldable pub is_missing : ReliableInputStream → ℕ → Bool
  is_missing s i =
      SeqNum.lt (SeqNum.add s.last_handled i) s.last_announced
      && (elim (find (SeqNum.add s.last_handled (i + 1)) s.messages) [
        | none ↦ true
        | some m ↦ false
      ])

  abbrev set_bit : Bool → ℕ → ℕ → ℕ
  set_bit test i bitmap = if test then bit_or bitmap (2 ^ i) else bitmap

  -- `for (i; i < 8; i++)`, with `n` rounds left.
  unfoldable pub acknack_loop : ReliableInputStream → ℕ → ℕ → AcknackPayload → AcknackPayload
  unfolding is_missing
  acknack_loop s zero i a = a
  acknack_loop s (suc n) i a = acknack_loop s n (i + 1) (record a {
    nack_low = set_bit (is_missing s i) i a.nack_low;
    nack_high = set_bit (is_missing s (i + 8)) i a.nack_high;
  })

  unfoldable pub fill_acknack : AcknackPayload → ReliableInputStream → AcknackPayload
  unfolding acknack_loop
  fill_acknack acknack s = acknack_loop s 8 0 (record acknack {
    first_unacked_seq_num = SeqNum.add_int s.last_handled (pos 1);
    nack_high = 0;
    nack_low = 0;
  })

  unfoldable pub reset : ReliableInputStream → ReliableInputStream
  reset s = record s { last_handled = 2 ^ 16 - 1; last_announced = 2 ^ 16 - 1; messages = [] }

  abbrev or_zeros : ℕ → Option (List ℕ) → List ℕ
  or_zeros n none = replicate n 0
  or_zeros n (some bytes) = bytes

  -- The buffer grows by zeros, over which the payload is copied if it can be read. The message
  -- passed by reference moves on, and is returned.
  unfoldable pub push_fragment :
      InputMessage c → ReliableInputStream → InputMessage c × ReliableInputStream
  push_fragment message s =
      let start =
        if is_empty s.fragment_msg then Input.get_raw_header c message else s.fragment_msg in
      let fragment_size = message.subheader.submessage_length in
      let (payload, message') = Input.get_raw_payload c fragment_size message in
      (
        message',
        record s {
          fragment_msg = start ++ or_zeros fragment_size payload;
          fragment_message_available =
              not (bit_and flag_last_fragment message.subheader.flags == 0);
        },
      )

  -- `none` in the first place is `rv` false; in the second, an exception of the new message.
  unfoldable pub pop_fragment_message :
      ReliableInputStream → Option (Option (InputMessage c)) × ReliableInputStream
  pop_fragment_message s =
      if s.fragment_message_available
      then (
        some (Input.create c s.fragment_msg),
        record s { fragment_msg = []; fragment_message_available = false },
      )
      else (none, s)
