-- ===== src/Management.antt =====
-- internal/management: the bans of NIP-86.
pub mod Access
pub mod Reload
pub mod Exclusion
pub mod Freshness
pub mod Browser
pub mod Browsing
pub mod Bans
