-- ===== src/Tests.antt =====
-- The theorems at concrete inputs, and runs of the definitions.
mod Sql
mod World
mod Server
mod Fresh
mod Proxy
mod Replay
mod System
mod Metric
mod Admin
mod Node
mod Registration
mod Locks
mod CacheConfig
mod Unused
mod Columns
mod Service
mod Start
mod Caching
