-- ===== src/Handlers.antt =====
-- internal/handlers/handlers.go: the checks that every event and filter passes.
pub mod Checks
pub mod Pow
pub mod Expiry
pub mod Bits
