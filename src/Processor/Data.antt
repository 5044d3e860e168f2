-- ===== src/Processor/Data.antt =====
-- Writing data (`Processor::process_write_data_submessage` in src/cpp/processor/Processor.cpp and
-- the `write` functions of src/cpp/datawriter/DataWriter.cpp, src/cpp/requester/Requester.cpp and
-- src/cpp/replier/Replier.cpp, without the limits of UAGENT_RESTRICT and UAGENT_PROTECT).
use Prim.Native.Nat.{bit_and}
use micro_xrce_dds_agent.Common.{
  ℕ, ◌+◌, ◌-◌, ◌*◌, ◌%◌, ◌^◌, Bool, false, ◌&&◌, List, Option, none, some, length, ltb, ◌==◌,
  if◌then◌else◌,
}
use micro_xrce_dds_agent.Common.Map.{pair_eq, find}
use micro_xrce_dds_agent.Cdr.{Cdr}
use micro_xrce_dds_agent.Message.Header.{header_size, subheader_size}
use micro_xrce_dds_agent.Message.Input.{InputMessage}
use micro_xrce_dds_agent.Object.{Entity, datawriter, requester, replier, kind, get_raw_id}
use micro_xrce_dds_agent.Object.Id.{ObjectId}
use micro_xrce_dds_agent.Client.Types.{ObjectStore}

-- The functions of the middleware that write, in include/uxr/agent/middleware/Middleware.hpp.
pub record Writing (World : Type 0) : Type 0 where
  pub write_data : ℕ → List ℕ → World → Bool × World
  pub write_request : ℕ → ℕ → List ℕ → World → Bool × World
  pub write_reply : ℕ → List ℕ → World → Bool × World

pub record WriteDataPayload : Type 0 where
  pub request_high : ℕ
  pub request_low : ℕ
  pub object_id : ObjectId
  pub serialized_data : List ℕ

-- `get_payload` into a payload whose data has the given size.
pub record DataCodec (c : Cdr) : Type 0 where
  pub get_write_data : ℕ → InputMessage c → Option WriteDataPayload × InputMessage c

module _ {World : Type 0} (w : Writing World) where
  -- `Requester::write`: the number of a request is made of the ids of the requester and of the
  -- request.
  unfoldable pub requester_write : ℕ → WriteDataPayload → World → Bool × World
  requester_write raw p =
      w.write_request raw ((raw * 2 ^ 16 + p.request_high * 2 ^ 8 + p.request_low) % 2 ^ 32)
        p.serialized_data

  -- The object under the id, which `dynamic_pointer_cast` gives if it is of the class, writes.
  abbrev write_as :
      Entity
      → (ℕ → WriteDataPayload → World → Bool × World)
      → WriteDataPayload
      → ObjectStore World
      → Bool × ObjectStore World
  write_as e write p s = elim (find p.object_id s.objects) [
    | none ↦ (false, s)
    | some o ↦
        if kind o.class == kind e
        then (let (rv, after) = write (get_raw_id o) p s.world in (rv, record s { world = after }))
        else (false, s)
  ]

  -- `switch (object_id[1] & 0x0F)`.
  unfoldable pub written : WriteDataPayload → ObjectStore World → Bool × ObjectStore World
  written p s =
      let low = bit_and p.object_id.1 15 in
      if low == kind datawriter
      then write_as datawriter (λ raw x. w.write_data raw x.serialized_data) p s
      else if low == kind requester
      then write_as requester requester_write p s
      else if low == kind replier
      then write_as replier (λ raw x. w.write_reply raw x.serialized_data) p s
      else (false, s)

  module _ (c : Cdr) (codec : DataCodec c) (tweak : Bool) where
    -- With UAGENT_TWEAK_XRCE_WRITE_LIMIT the length 0 stands for all of the message.
    abbrev payload_length : InputMessage c → ℕ
    payload_length message =
        if tweak && (message.subheader.submessage_length == 0)
        then length message.buf - header_size c message.header 0 - subheader_size c 0
        else message.subheader.submessage_length

    -- The result is `rv`, the message read on and the objects. `none` is the exception of
    -- `resize` for a length that is less than the four octets of the request, whose difference
    -- wraps around.
    unfoldable pub process_write_data_submessage :
        InputMessage c → ObjectStore World → Option (Bool × InputMessage c × ObjectStore World)
    process_write_data_submessage message s =
        if bit_and message.subheader.flags 14 == 0
        then if ltb (payload_length message) 4
          then none
          else (let (payload, message') =
                codec.get_write_data (payload_length message - 4) message in
              elim payload [
                | none ↦ some (false, message', s)
                | some p ↦ (let (rv, after) = written p s in some (rv, message', after))
              ])
        else some (false, message, s)
