-- ===== src/Spool.antt =====
-- The durable delivery spool of internal/spool/spool.go.
pub mod State
pub mod Files
pub mod Sort
pub mod Retention
pub mod Queue
pub mod Drain
pub mod Valid
pub mod Passes
pub mod Retain
pub mod Budget
pub mod Enqueue
pub mod Settle
pub mod Draining
pub mod Order
pub mod Delivered
pub mod Interleaving
pub mod Reopen
mod Tests
