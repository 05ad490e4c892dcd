-- ===== src/Gates.antt =====
-- cmd/relay/gates.go: the first checks of every event, in the order in which they are registered.
pub mod Chain
pub mod Order
pub mod Admissible
