-- ===== src/Expiry.antt =====
-- internal/expiry/sweeper.go: the periodic deletion of expired events.
pub mod Sweeper
pub mod Batches
pub mod Sweeping
