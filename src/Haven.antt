-- ===== src/Haven.antt =====
-- internal/haven: the four boxes (types.go), the router (router.go) and the handlers (handlers.go).
pub mod Types
pub mod Refusal
pub mod Writing
pub mod Reading
pub mod MultiUser
pub mod Handlers
pub mod Router
pub mod Blastr
pub mod Importer
pub mod Subscriber
