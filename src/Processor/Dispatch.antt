-- ===== src/Processor/Dispatch.antt =====
-- What becomes of a packet that is received (`process_input_packet`, `process_input_message`,
-- `process_submessage` and `process_fragment_submessage` in src/cpp/processor/Processor.cpp).

use micro_xrce_dds_agent.Common.{
  ℕ, zero, suc, Bool, true, false, List, ◌++◌, Option, none, some, ◌==◌, if◌then◌else◌,
}
use micro_xrce_dds_agent.Common.Map as Map
use micro_xrce_dds_agent.Cdr.{Cdr}
use micro_xrce_dds_agent.Message.Input.{InputMessage, prepare_next_submessage}
use micro_xrce_dds_agent.Session.{Config}
use micro_xrce_dds_agent.Session.Input.{push_input_fragment, pop_input_fragment_message}
use micro_xrce_dds_agent.Object.{Middleware, XrceObject}
use micro_xrce_dds_agent.Client.Proxy.{Environment}
use micro_xrce_dds_agent.Processor.Types.{Codec}
use micro_xrce_dds_agent.Processor.Heartbeats.{get_info}
use micro_xrce_dds_agent.Processor.Clients.{ClientCodec, process_create_client_submessage}
use micro_xrce_dds_agent.Processor.Acknack.{process_acknack_submessage}
use micro_xrce_dds_agent.Processor.Requests.{
  Handling, process_create_submessage, process_delete_submessage, process_heartbeat_submessage,
  process_reset_submessage, acknack_id,
}
use micro_xrce_dds_agent.Processor.Data.{Writing, DataCodec, process_write_data_submessage}
use micro_xrce_dds_agent.Processor.Info.{
  InfoCodec, process_get_info_submessage, process_timestamp_submessage,
}
use micro_xrce_dds_agent.Processor.Reading.{Started, ReadCodec, process_read_data_submessage}

-- What the processor works with: the generated code, the middleware, the constants of the build,
-- what memory and the clocks hold, and which readers' threads can be joined.
pub record Setting (c : Cdr) (World : Type 0) : Type 0 where
  pub codec : Codec c
  pub client_codec : ClientCodec c
  pub data_codec : DataCodec c
  pub info_codec : InfoCodec c
  pub read_codec : ReadCodec c
  pub middleware : Middleware World
  pub writing : Writing World
  pub environment : Environment World
  pub config : Config
  pub tweak : Bool
  pub joinable : XrceObject → Bool
  pub uninitialized : ℕ
  pub now : ℕ
  pub received : ℕ
  pub sending : ℕ

-- A handler's state with the readers that were started.
abbrev pub Turn : Cdr → Type 0 → Type 0 → Type 0
Turn c World EndPoint = Handling c World EndPoint × List Started

-- The ids that Processor/Heartbeats and Processor/Requests do not name.
abbrev pub create_client_id : ℕ
create_client_id = 0

abbrev pub create_id : ℕ
create_id = 1

abbrev pub delete_id : ℕ
delete_id = 3

abbrev pub write_data_id : ℕ
write_data_id = 7

abbrev pub read_data_id : ℕ
read_data_id = 8

abbrev pub heartbeat_id : ℕ
heartbeat_id = 11

abbrev pub reset_id : ℕ
reset_id = 12

abbrev pub fragment_id : ℕ
fragment_id = 13

abbrev pub timestamp_id : ℕ
timestamp_id = 14

module _ {c : Cdr} {World EndPoint : Type 0} where
  abbrev pub kept_readers :
      List Started
      → Option (Bool × Handling c World EndPoint)
      → Option (Bool × Turn c World EndPoint)
  kept_readers started none = none
  kept_readers started (some (rv, h)) = some (rv, (h, started))

  abbrev pub with_message : InputMessage c → Handling c World EndPoint → Handling c World EndPoint
  with_message message h = record h { packet = record h.packet { message = message } }

module _ (c : Cdr) {World EndPoint : Type 0} ⦃q : Map.Eq EndPoint⦄ (fuel : ℕ)
    (x : Setting c World) where
  -- The handlers whose results are not those of the others.
  unfoldable pub on_create_client :
      Handling c World EndPoint → Option (Bool × Handling c World EndPoint)
  on_create_client h =
      elim (process_create_client_submessage c x.client_codec x.environment x.uninitialized x.now
        h.packet h.agent) [ none ↦ none | some (rv, a) ↦ some (rv, record h { agent = a }) ]

  unfoldable pub on_write_data :
      Handling c World EndPoint → Option (Bool × Handling c World EndPoint)
  on_write_data h =
      elim (process_write_data_submessage x.writing c x.data_codec x.tweak h.packet.message
        h.client.store) [
          | none ↦ none
          | some (rv, message, store) ↦
              some
                (rv, record (with_message message h) { client = record h.client { store = store } })
        ]

  unfoldable pub on_acknack : Handling c World EndPoint → Option (Bool × Handling c World EndPoint)
  on_acknack h =
      let (rv, packet, session, sent) =
        process_acknack_submessage c x.codec h.packet h.client.session in
      some (
        rv,
        record h {
          packet = packet;
          client = record h.client { session = session };
          agent = record h.agent { sent = h.agent.sent ++ sent };
        },
      )

  -- The argument is `process_input_message`, for the message that the fragments make.
  unfoldable pub process_fragment_submessage :
      (Turn c World EndPoint → Option (Turn c World EndPoint))
      → Turn c World EndPoint
      → Option (Bool × Turn c World EndPoint)
  process_fragment_submessage input_message (h, started) =
      let stream_id = h.packet.message.header.stream_id in
      let (message, pushed) = push_input_fragment c stream_id h.packet.message h.client.session in
      let (found, session) = pop_input_fragment_message c stream_id pushed in
      let left = record (with_message message h) {
        client = record h.client { session = session };
      } in
      elim found [
        | none ↦ some (true, (left, started))
        | some made ↦ (elim made [
          | none ↦ none
          | some whole ↦ (elim (input_message (with_message whole left, started)) [
            | none ↦ none
            | some (h', started') ↦ some (true, (with_message message h', started'))
          ])
        ])
      ]

  unfoldable pub process_submessage :
      (Turn c World EndPoint → Option (Turn c World EndPoint))
      → Turn c World EndPoint
      → Option (Bool × Turn c World EndPoint)
  process_submessage input_message (h, started) =
      let id = h.packet.message.subheader.submessage_id in
      if id == create_client_id
      then kept_readers started (on_create_client h)
      else if id == create_id
      then kept_readers started (process_create_submessage c x.middleware x.codec fuel x.config h)
      else if id == get_info
      then kept_readers started (some (process_get_info_submessage c x.info_codec h))
      else if id == delete_id
      then kept_readers started (process_delete_submessage c x.middleware x.codec fuel x.config h)
      else if id == write_data_id
      then kept_readers started (on_write_data h)
      else if id == read_data_id
      then process_read_data_submessage c x.middleware x.read_codec x.codec fuel x.config x.joinable
          (h, started)
      else if id == acknack_id
      then kept_readers started (on_acknack h)
      else if id == heartbeat_id
      then kept_readers started
          (process_heartbeat_submessage c x.middleware x.codec fuel x.config h)
      else if id == reset_id
      then kept_readers started (process_reset_submessage c x.middleware x.codec fuel x.config h)
      else if id == fragment_id
      then process_fragment_submessage input_message (h, started)
      else if id == timestamp_id
      then kept_readers started
          (process_timestamp_submessage c x.info_codec fuel x.config x.received x.sending h)
      else some (false, (h, started))

  -- `while (prepare_next_submessage() && process_submessage(…))`, with fuel for the submessages and
  -- for the messages that are made of fragments; `none` if it has run out or a handler has thrown.
  unfoldable pub process_input_message : ℕ → Turn c World EndPoint → Option (Turn c World EndPoint)
  process_input_message zero turn = none
  process_input_message (suc rounds) (h, started) =
      let (more, message) = prepare_next_submessage c h.packet.message in
      let again = process_input_message rounds in
      elim more [
        | false ↦ some (with_message message h, started)
        | true ↦ (elim (process_submessage again (with_message message h, started)) [
          | none ↦ none
          | some (rv, turn) ↦ (elim rv [ true ↦ again turn | false ↦ some turn ])
        ])
      ]
