-- ===== src/Metadata.antt =====
-- internal/metadata: the immutable definitions of hosts, items and groups.
pub mod Types
pub mod Store
