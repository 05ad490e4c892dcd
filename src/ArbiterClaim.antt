-- ===== src/ArbiterClaim.antt =====
-- internal/arbiterclaim: exclusive task claims. The shape of a claim and the tie-break of the client
-- protocol (claim.go), the table in Postgres (store.go) and the handler (handler.go).
pub mod Claim
pub mod Store
pub mod Race
pub mod Winner
pub mod Handler
