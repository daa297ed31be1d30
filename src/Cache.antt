-- ===== src/Cache.antt =====
-- The disk cache (src/cache/).
pub mod Key
pub mod Policy
pub mod SingleFlight
pub mod FileSystem
pub mod Metadata
pub mod Eviction
pub mod Layout
pub mod Scan
pub mod Stats
mod Tests
