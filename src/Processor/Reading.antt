-- ===== src/Processor/Reading.antt =====
-- READ_DATA, and handing on what is read (src/cpp/processor/Processor.cpp and the `read` functions
-- of src/cpp/datareader/DataReader.cpp, src/cpp/requester/Requester.cpp and
-- src/cpp/replier/Replier.cpp). The thread of a reader, which
-- include/uxr/agent/reader/Reader.hpp starts, is outside: what it was given is kept.
use Prim.Native.Nat.{bit_and}
use micro_xrce_dds_agent.Common.{
  ℕ, Bool, true, false, List, [], ◌∷◌, ◌++◌, Option, none, some, ◌==◌, if◌then◌else◌,
}
use micro_xrce_dds_agent.Common.Map.{pair_eq, nat_eq, Map, find, assign}
use micro_xrce_dds_agent.Common.Map as Map
use micro_xrce_dds_agent.Cdr.{Cdr}
use micro_xrce_dds_agent.Message.Input.{InputMessage}
use micro_xrce_dds_agent.Message.Output.{Submessage}
use micro_xrce_dds_agent.Session.{Session, Config, streamid_builtin_reliable}
use micro_xrce_dds_agent.Session.Output.{push_output_submessage}
use micro_xrce_dds_agent.SessionManager.{SessionManager, get_endpoint}
use micro_xrce_dds_agent.Object.{
  Entity, datareader, requester, replier, kind, Middleware, XrceObject,
}
use micro_xrce_dds_agent.Object.Id.{ObjectId}
use micro_xrce_dds_agent.Client.Types.{
  StatusValue, status_err_unknown_reference, status_err_resources,
}
use micro_xrce_dds_agent.Processor.Types.{Codec, OutputPacket}
use micro_xrce_dds_agent.Processor.Requests.{Handling, send_all, answer_on, status_id}
use micro_xrce_dds_agent.Processor.Heartbeats.{raw_key}

-- The submessage id DATA.
abbrev data_id : ℕ
data_id = 9

pub record DeliveryControl : Type 0 where
  pub max_samples : ℕ
  pub max_elapsed_time : ℕ
  pub max_bytes_per_second : ℕ

pub record ReadDataPayload : Type 0 where
  pub request_id : List ℕ
  pub object_id : ObjectId
  pub preferred_stream_id : ℕ
  pub delivery_control : Option DeliveryControl

-- `client` is the proxy of the client with the key.
pub record WriteFnArgs : Type 0 where
  pub client_key : List ℕ
  pub stream_id : ℕ
  pub object_id : ObjectId
  pub request_id : List ℕ

-- A reader that is told to start: the object, how much to deliver, and what to do with it.
pub record Started : Type 0 where
  pub reader : XrceObject
  pub delivery_control : DeliveryControl
  pub write_args : WriteFnArgs

pub record ReadCodec (c : Cdr) : Type 0 where
  pub get_read_data : InputMessage c → Option ReadDataPayload × InputMessage c
  pub data_payload : List ℕ → ObjectId → List ℕ → Submessage

-- What `read` does if there is no delivery control: one sample.
abbrev control_of : ReadDataPayload → DeliveryControl
control_of p = elim p.delivery_control [
  | some control ↦ control
  | none ↦ record { max_samples = 1; max_elapsed_time = 0; max_bytes_per_second = 0 }
]

-- The object under the id, if it is of the class that the id names.
abbrev of_class : Entity → Option XrceObject → Option XrceObject
of_class e none = none
of_class e (some o) = if kind o.class == kind e then some o else none

unfoldable pub reader_object : ObjectId → Map ObjectId XrceObject → Option XrceObject
reader_object i objects =
    let low = bit_and i.1 15 in
    if low == kind datareader
    then of_class datareader (find i objects)
    else if low == kind requester
    then of_class requester (find i objects)
    else if low == kind replier
    then of_class replier (find i objects)
    else none

-- `stop_reading() && start_reading(…)`, which fails only where the thread that ran before cannot be
-- joined; the argument says whether it can.
unfoldable pub start : (XrceObject → Bool) → XrceObject → ReadDataPayload → List ℕ → Option Started
start joinable o p key =
    if joinable o
    then some (record {
      reader = o;
      delivery_control = control_of p;
      write_args = record {
        client_key = key;
        stream_id = p.preferred_stream_id;
        object_id = p.object_id;
        request_id = p.request_id;
      };
    })
    else none

module _ (c : Cdr) {World EndPoint : Type 0} ⦃q : Map.Eq EndPoint⦄ (m : Middleware World)
    (codec : ReadCodec c) (statuses : Codec c) (fuel : ℕ) (config : Config)
    (joinable : XrceObject → Bool) where
  -- The answer to a request that is refused.
  abbrev pub refuse :
      ReadDataPayload
      → StatusValue
      → List Started
      → Handling c World EndPoint
      → Option (Bool × (Handling c World EndPoint × List Started))
  refuse p status started h =
      elim (answer_on c m statuses fuel config streamid_builtin_reliable status_id
        (statuses.status
          (record { request_id = p.request_id; object_id = p.object_id; status = status }))
        h) [ none ↦ none | some h' ↦ some (true, (h', started)) ]

  -- The readers that are started are put behind those that were.
  unfoldable pub process_read_data_submessage :
      Handling c World EndPoint × List Started
      → Option (Bool × (Handling c World EndPoint × List Started))
  process_read_data_submessage (h, started) =
      let (payload, message) = codec.get_read_data h.packet.message in
      let read_on = record h { packet = record h.packet { message = message } } in
      elim payload [
        | none ↦ some (false, (read_on, started))
        | some p ↦ (elim (reader_object p.object_id h.client.store.objects) [
          | none ↦ refuse p status_err_unknown_reference started read_on
          | some o ↦ (elim (start joinable o p h.client.representation.client_key) [
            | none ↦ refuse p status_err_resources started read_on
            | some reader ↦ some (true, (read_on, started ++ (reader ∷ [])))
          ])
        ])
      ]

module _ (c : Cdr) {EndPoint : Type 0} ⦃q : Map.Eq EndPoint⦄ (codec : ReadCodec c) (fuel : ℕ)
    (config : Config) where
  -- What a reader's thread calls with a sample, on the session of the client that it was started
  -- for. Without an endpoint of the client it waits only.
  unfoldable pub read_data_callback :
      WriteFnArgs
      → List ℕ
      → SessionManager EndPoint
      → Session c × List (OutputPacket c EndPoint)
      → Option (Bool × (Session c × List (OutputPacket c EndPoint)))
  read_data_callback args buffer sessions (s, sent) =
      elim (get_endpoint sessions (raw_key args.client_key)) [
        | none ↦ some (false, (s, sent))
        | some destination ↦
            (elim (push_output_submessage c fuel config args.stream_id data_id
              (codec.data_payload args.request_id args.object_id buffer) s) [
                | none ↦ none
                | some (rv, s') ↦ (elim (send_all c fuel destination args.stream_id s' sent) [
                  | none ↦ none
                  | some left ↦ some (rv, left)
                ])
              ])
      ]
