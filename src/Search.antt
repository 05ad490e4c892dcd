-- ===== src/Search.antt =====
-- internal/search/search.go: full text search (NIP-50).
pub mod Query
pub mod Selects
pub mod Setup
pub mod Settled
