-- ===== src/OutputStream.antt =====
-- include/uxr/agent/client/session/stream/OutputStream.hpp. Every operation holds the stream's
-- mutex from end to end, so it is one step on the stream's state.
pub mod Types
pub mod None
pub mod BestEffort
pub mod Reliable
pub mod Tests
