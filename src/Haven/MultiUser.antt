-- ===== src/Haven/MultiUser.antt =====
-- What the handlers of the multi-user mode (internal/haven/handlers.go) let through.
pub mod Writing
pub mod Reading
