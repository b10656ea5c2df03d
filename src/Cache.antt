-- ===== src/Cache.antt =====
-- internal/cache: the state of one item, the shards, the value cache and the expiry wheel.
pub mod State
pub mod Shard
pub mod Sweep
pub mod Values
pub mod Buckets
pub mod Wheel
pub mod Coverage
pub mod Apply
pub mod Pages
pub mod Setup
