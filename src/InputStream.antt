-- ===== src/InputStream.antt =====
-- include/uxr/agent/client/session/stream/InputStream.hpp. Every operation holds the stream's
-- mutex from end to end, so it is one step on the stream's state. An operation that can refuse
-- returns its `rv`; one that hands a message out returns it as an option, `none` for `rv` false.
pub mod None
pub mod BestEffort
pub mod Reliable
