-- ===== src/Processor.antt =====
-- The handlers of the submessages of a client (src/cpp/processor/Processor.cpp), each on the
-- client's proxy and on the packets that it gives to the server in the order in which it gives
-- them. Reading a payload from a message and serializing one are generated code, `Codec`.
pub mod Types
pub mod Acknack
pub mod Resend
pub mod Tests
pub mod Heartbeats
pub mod Visits
pub mod Rounds
pub mod Silence
pub mod Clients
pub mod Admission
pub mod Requests
pub mod Data
pub mod Info
pub mod Reading
pub mod Dispatch
pub mod Packets
pub mod Untouched
pub mod Isolation
pub mod Strangers
pub mod Answered
