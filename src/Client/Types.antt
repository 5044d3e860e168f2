-- ===== src/Client/Types.antt =====
-- The values that include/uxr/agent/types/XRCETypes.hpp gives a status, and a client's objects
-- with the middleware (include/uxr/agent/client/ProxyClient.hpp).
use micro_xrce_dds_agent.Common.{Bool}
use micro_xrce_dds_agent.Common.Map.{Map}
use micro_xrce_dds_agent.Object.{XrceObject}
use micro_xrce_dds_agent.Object.Id.{ObjectId}

-- The `implementation_status` beside it is 0 throughout.
pub data StatusValue : Type 0 where
  status_ok : StatusValue
  status_ok_matched : StatusValue
  status_err_dds_error : StatusValue
  status_err_mismatch : StatusValue
  status_err_already_exists : StatusValue
  status_err_denied : StatusValue
  status_err_unknown_reference : StatusValue
  status_err_invalid_data : StatusValue
  status_err_incompatible : StatusValue
  status_err_resources : StatusValue

pub record CreationMode : Type 0 where
  pub reuse : Bool
  pub replace : Bool

pub record ObjectStore (World : Type 0) : Type 0 where
  pub objects : Map ObjectId XrceObject
  pub world : World
