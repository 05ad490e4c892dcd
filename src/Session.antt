-- ===== src/Session.antt =====
-- internal/session/session.go: the state of WebSocket sessions in Redis.
pub mod Store
pub mod Proper
pub mod Authenticated
