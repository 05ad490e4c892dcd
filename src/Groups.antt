-- ===== src/Groups.antt =====
-- internal/groups: NIP-29 groups.
pub mod Kinds
pub mod Resolve
pub mod Latest
pub mod Ownership
pub mod Metadata
pub mod Scope
pub mod Visibility
pub mod Counting
pub mod Store
pub mod Roster
pub mod Handler
pub mod Saved
pub mod Coherence
pub mod Moderation
pub mod Entitlement
pub mod Admitted
pub mod Opening
