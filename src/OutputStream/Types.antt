-- ===== src/OutputStream/Types.antt =====
-- include/uxr/agent/client/session/SessionInfo.hpp and constants of the XRCE types.
use micro_xrce_dds_agent.Common.{ℕ, List}

pub record SessionInfo : Type 0 where
  pub client_key : List ℕ
  pub session_id : ℕ
  pub mtu : ℕ

abbrev pub streamid_none : ℕ
streamid_none = 0

-- `dds::xrce::FRAGMENT`.
abbrev pub fragment_id : ℕ
fragment_id = 13

abbrev pub flag_little_endianness : ℕ
flag_little_endianness = 1

abbrev pub flag_last_fragment : ℕ
flag_last_fragment = 2

-- The `flags` of OutputMessage::append_submessage that its callers leave out.
abbrev pub default_flags : ℕ
default_flags = 1
