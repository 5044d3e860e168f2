-- ===== src/OutputStream/Reliable.antt =====
-- `ReliableOutputStream`: messages stay until they are acknowledged. `depth` is
-- RELIABLE_STREAM_DEPTH of the build.
pub mod Fragments
pub mod Push
pub mod Window
use Prim.Native.Nat.{bit_or}
use micro_xrce_dds_agent.Common.{
  ℕ, zero, suc, ◌+◌, ◌-◌, ◌%◌, ◌^◌, Bool, true, false, not, List, [], ◌∷◌, ◌++◌, Option, none, some,
  length, is_empty, take, drop, ltb, leb, ◌==◌, if◌then◌else◌,
}
use micro_xrce_dds_agent.Common.Int.{pos}
use micro_xrce_dds_agent.Common.Dict.{Dict, find, erase, emplace}
use micro_xrce_dds_agent.SeqNum
use micro_xrce_dds_agent.Cdr.{Cdr}
use micro_xrce_dds_agent.Message.Header.{
  MessageHeader, SubmessageHeader, header_size, subheader_size, serialize_subheader,
}
use micro_xrce_dds_agent.Message.Output
use micro_xrce_dds_agent.Message.Output.{OutputMessage, Submessage}
use micro_xrce_dds_agent.OutputStream.BestEffort.{next_header}
use micro_xrce_dds_agent.OutputStream.Types.{
  SessionInfo, fragment_id, flag_little_endianness, flag_last_fragment, default_flags,
}

pub record HeartbeatPayload : Type 0 where
  pub stream_id : ℕ
  pub first_unacked_seq_nr : ℕ
  pub last_unacked_seq_nr : ℕ

module _ (c : Cdr) where
  pub record ReliableOutputStream : Type 0 where
    pub messages : Dict (OutputMessage c)
    pub last_unacked : ℕ
    pub last_sent : ℕ
    pub first_unacked : ℕ

  abbrev pub init : ReliableOutputStream
  init = record {
    messages = [];
    last_unacked = 2 ^ 16 - 1;
    last_sent = 2 ^ 16 - 1;
    first_unacked = 0;
  }

  unfoldable pub reset : ReliableOutputStream → ReliableOutputStream
  reset s = record s {
    last_unacked = 2 ^ 16 - 1;
    last_sent = 2 ^ 16 - 1;
    first_unacked = 0;
    messages = [];
  }

  -- The condition that `push_submessage` waits for.
  unfoldable pub has_room : ℕ → ReliableOutputStream → Bool
  has_room depth s = SeqNum.lt s.last_unacked (SeqNum.add s.first_unacked (depth - 1))

  -- `messages_.insert` under the next number, when the message was built.
  unfoldable pub push_next :
      (MessageHeader → Bool × OutputMessage c)
      → SessionInfo
      → ℕ
      → ReliableOutputStream
      → Bool × ReliableOutputStream
  push_next build info stream_id s =
      let next = SeqNum.add_int s.last_unacked (pos 1) in
      let (built, message) = build (next_header info stream_id next) in
      if built
      then (true, record s { last_unacked = next; messages = emplace next message s.messages })
      else (false, record s { last_unacked = next })

  -- The variables of the fragment loop.
  pub record Fragmenter : Type 0 where
    pub serialized_size : ℕ
    pub flags : ℕ
    pub stream : ReliableOutputStream

  module _ (info : SessionInfo) (stream_id : ℕ) (buf : List ℕ)
      (submessage_size headers max_fragment_size : ℕ) where
    -- The second half of the loop's body: the message of the fragment. False is its `break`.
    unfoldable pub store_fragment : ℕ → ℕ → Fragmenter → Bool × Fragmenter
    unfolding push_next
    store_fragment fragment_size flags f =
        let subheader : SubmessageHeader = record {
          submessage_id = fragment_id;
          flags = flags;
          submessage_length = fragment_size;
        } in
        let (pushed, s) =
          push_next
            (λ header.
              Output.append_fragment c subheader (take fragment_size (drop f.serialized_size buf))
                (Output.create c header (headers + fragment_size)))
            info stream_id f.stream in
        if pushed
        then (
          true,
          record {
            serialized_size = (f.serialized_size + fragment_size) % 2 ^ 16;
            flags = flags;
            stream = s;
          },
        )
        else (false, record { serialized_size = f.serialized_size; flags = flags; stream = s })

    -- One round of the loop. `headers` is `header_size + subheader_size`.
    unfoldable pub fragment_round : Fragmenter → Bool × Fragmenter
    unfolding store_fragment
    fragment_round f =
        let left = submessage_size - f.serialized_size in
        let is_last = leb (headers + left) info.mtu in
        store_fragment ((if is_last then left else max_fragment_size) % 2 ^ 16)
          (if is_last then bit_or flag_little_endianness flag_last_fragment else f.flags) f

    -- `do … while (serialized_size < submessage_size)`; `none` when the fuel has run out.
    unfoldable pub fragment_loop : ℕ → Fragmenter → Option Fragmenter
    unfolding fragment_round
    fragment_loop zero f = none
    fragment_loop (suc fuel) f =
        let (going_on, f') = fragment_round f in
        let again = fragment_loop fuel f' in
        if going_on
        then (if ltb f'.serialized_size submessage_size then again else some f')
        else some f'

  -- `rv = (serialized_size == submessage_size)`.
  abbrev pub all_cut : ℕ → Option Fragmenter → Option (Bool × ReliableOutputStream)
  all_cut submessage_size none = none
  all_cut submessage_size (some f) = some (f.serialized_size == submessage_size, f.stream)

  -- The fragments of the serialized submessage, and whether all of it was cut.
  unfoldable pub push_buffer :
      ℕ
      → SessionInfo
      → ℕ
      → ℕ
      → ℕ
      → ℕ
      → List ℕ
      → ReliableOutputStream
      → Option (Bool × ReliableOutputStream)
  unfolding fragment_loop
  push_buffer fuel info stream_id header subheader submessage_size buf s = all_cut submessage_size (
      fragment_loop info stream_id buf submessage_size (header + subheader)
        ((info.mtu + 2 ^ 64 - header - subheader) % 2 ^ 64) fuel
        (record { serialized_size = 0; flags = flag_little_endianness; stream = s }))

  -- The body behind the wait, for the sizes of the two headers.
  unfoldable pub push_sized :
      ℕ
      → SessionInfo
      → ℕ
      → ℕ
      → Submessage
      → ReliableOutputStream
      → ℕ
      → ℕ
      → Option (Bool × ReliableOutputStream)
  unfolding push_next push_buffer
  push_sized fuel info stream_id id submessage s header subheader =
      let submessage_size = subheader + submessage.serialized_size in
      let submessage_header : SubmessageHeader = record {
        submessage_id = id;
        flags = flag_little_endianness;
        submessage_length = submessage.serialized_size % 2 ^ 16;
      } in
      let (written, w) = serialize_subheader c submessage_header (c.writer submessage_size) in
      let (complete, w') = c.put submessage.bytes w in
      if leb (header + submessage_size) info.mtu
      then some (
          push_next
            (λ h.
              Output.append_submessage c id submessage default_flags
                (Output.create c h (header + submessage_size)))
            info stream_id s)
      else (if written
          then (if complete
              then push_buffer fuel info stream_id header subheader submessage_size (c.written w') s
              else none)
          else none)

  -- `push_submessage`, from the end of the wait on, in the state of that moment; a wait that
  -- times out is one that ends where the condition fails. `none` is an exception of the
  -- serializer, or a loop that takes more than `fuel` rounds.
  unfoldable pub push_submessage :
      ℕ
      → ℕ
      → SessionInfo
      → ℕ
      → ℕ
      → Submessage
      → ReliableOutputStream
      → Option (Bool × ReliableOutputStream)
  unfolding has_room push_sized
  push_submessage fuel depth info stream_id id submessage s =
      let pushed =
        push_sized fuel info stream_id id submessage s
          (header_size c (next_header info stream_id 0) 0) (subheader_size c 0) in
      if has_room depth s then pushed else some (false, s)

  -- `messages_.at` throws where the message is not there, which is the `none` behind `some`.
  unfoldable pub get_next_message :
      ReliableOutputStream → Option (Option (OutputMessage c)) × ReliableOutputStream
  get_next_message s =
      let next = SeqNum.add_int s.last_sent (pos 1) in
      if SeqNum.lt s.last_sent s.last_unacked
      then (some (find next s.messages), record s { last_sent = next })
      else (none, s)

  unfoldable pub get_message : ℕ → ReliableOutputStream → Option (OutputMessage c)
  get_message seq_num s = find seq_num s.messages

  -- `while (first_unacked > first_unacked_)`. Each round brings the two numbers one step closer,
  -- so 2^16 rounds are enough.
  unfoldable pub acknack_loop : ℕ → ℕ → ReliableOutputStream → ReliableOutputStream
  acknack_loop zero first_unacked s = s
  acknack_loop (suc fuel) first_unacked s = elim (SeqNum.gt first_unacked s.first_unacked) [
    | true ↦ acknack_loop fuel first_unacked (record s {
      messages = erase s.first_unacked s.messages;
      first_unacked = SeqNum.add_int s.first_unacked (pos 1);
    })
    | false ↦ s
  ]

  unfoldable pub update_from_acknack : ℕ → ReliableOutputStream → ReliableOutputStream
  unfolding acknack_loop
  update_from_acknack first_unacked s =
      if SeqNum.le first_unacked (SeqNum.add_int s.last_sent (pos 1))
      then acknack_loop (2 ^ 16) first_unacked s
      else s

  unfoldable pub fill_heartbeat : HeartbeatPayload → ReliableOutputStream → Bool × HeartbeatPayload
  fill_heartbeat heartbeat s = (
    not (is_empty s.messages),
    record heartbeat {
      first_unacked_seq_nr = s.first_unacked;
      last_unacked_seq_nr = s.last_unacked;
    },
  )
