-- ===== src/Processor/Types.antt =====
-- What the handlers take and leave (include/uxr/agent/processor/Processor.hpp and
-- include/uxr/agent/transport/Server.hpp).
use micro_xrce_dds_agent.Common.{ℕ, List, Option}
use micro_xrce_dds_agent.Cdr.{Cdr}
use micro_xrce_dds_agent.Message.Input.{InputMessage}
use micro_xrce_dds_agent.Message.Output.{OutputMessage, Submessage}
use micro_xrce_dds_agent.InputStream.Reliable.{AcknackPayload}
use micro_xrce_dds_agent.OutputStream.Reliable.{HeartbeatPayload}
use micro_xrce_dds_agent.Object.{ObjectVariant}
use micro_xrce_dds_agent.Object.Id.{ObjectId}
use micro_xrce_dds_agent.Client.Types.{StatusValue}

pub record CreatePayload : Type 0 where
  pub request_id : List ℕ
  pub object_id : ObjectId
  pub object_representation : ObjectVariant

pub record DeletePayload : Type 0 where
  pub request_id : List ℕ
  pub object_id : ObjectId

-- A STATUS_Payload: the request it answers and the result.
pub record StatusPayload : Type 0 where
  pub request_id : List ℕ
  pub object_id : ObjectId
  pub status : StatusValue

pub record OutputPacket (c : Cdr) (EndPoint : Type 0) : Type 0 where
  pub destination : EndPoint
  pub message : OutputMessage c

pub record InputPacket (c : Cdr) (EndPoint : Type 0) : Type 0 where
  pub source : EndPoint
  pub message : InputMessage c

-- `get_payload` of each type, with the message read on, `none` where it returns false; and what
-- `push_output_submessage` takes of each type.
pub record Codec (c : Cdr) : Type 0 where
  pub get_create : InputMessage c → Option CreatePayload × InputMessage c
  pub get_delete : InputMessage c → Option DeletePayload × InputMessage c
  pub get_acknack : InputMessage c → Option AcknackPayload × InputMessage c
  pub get_heartbeat : InputMessage c → Option HeartbeatPayload × InputMessage c
  pub status : StatusPayload → Submessage
  pub acknack : AcknackPayload → Submessage
