-- ===== src/Push.antt =====
-- internal/promwrap: what stands between the cache and the Remote Write endpoint.
pub mod Delivery
pub mod Queue
pub mod Encoder
pub mod Publisher
pub mod Batcher
