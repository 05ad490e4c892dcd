-- ===== src/Wot.antt =====
-- internal/wot: the web of trust and its limits per key.
pub mod Bucket
pub mod Trust
pub mod Gate
pub mod Isolation
