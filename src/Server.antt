-- ===== src/Server.antt =====
-- server/src: the caching proxy.
pub mod Config
pub mod Packet
pub mod Cache
pub mod Meta
pub mod Handler
pub mod Serving
pub mod Proxy
pub mod Locks
pub mod Metric
pub mod System
