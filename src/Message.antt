-- ===== src/Message.antt =====
-- include/uxr/agent/message/ and the two headers of an XRCE message, over Fast CDR.
pub mod Header
pub mod Input
pub mod Output
