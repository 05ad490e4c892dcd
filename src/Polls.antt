-- ===== src/Polls.antt =====
-- internal/polls: polls and their responses (NIP-88).
pub mod Types
pub mod RoundTrip
pub mod Validity
