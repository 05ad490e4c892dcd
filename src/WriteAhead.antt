-- ===== src/WriteAhead.antt =====
-- internal/writeahead: the write-ahead log in front of PostgreSQL.
pub mod Queue
pub mod Ops
pub mod Refinement
pub mod Accounting
pub mod Shutdown
pub mod Recovery
