-- ===== src/Admin.antt =====
-- The admin service: errors and responses, users and their tokens, and the registered nodes.
pub mod Error
pub mod Token
pub mod User
pub mod Node
pub mod CacheConfig
pub mod Metric
pub mod Service
