-- ===== src/Membership.antt =====
-- internal/membership: join requests and invites (NIP-43).
pub mod Join
pub mod Admission
pub mod Invites
pub mod Payments
pub mod Settlement
pub mod Grants
pub mod Webhooks
