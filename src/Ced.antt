-- ===== src/Ced.antt =====
-- The middleware of the agent's own, without DDS: the topics that the agent's clients share
-- (src/cpp/middleware/ced/CedEntities.cpp) and the entities of a client
-- (src/cpp/middleware/ced/CedMiddleware.cpp).
pub mod GlobalTopic
pub mod Log
pub mod Delivery
pub mod Published
pub mod Names
pub mod Manager
pub mod Informed
pub mod Told
pub mod Notified
pub mod Store
pub mod Entities
pub mod Middleware
pub mod Live
pub mod Refinement
pub mod Client
pub mod Tests
