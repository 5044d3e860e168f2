-- ===== src/Client.antt =====
-- A client's proxy (src/cpp/client/ProxyClient.cpp).
pub mod Types
pub mod Proxy
pub mod Objects
pub mod Creation
pub mod Kept
pub mod Lookup
pub mod Prefix
pub mod Ownership
pub mod Tests
