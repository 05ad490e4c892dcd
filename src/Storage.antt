-- ===== src/Storage.antt =====
-- internal/storage: what keeps deleted events deleted.
pub mod Tombstone
pub mod Deleted
