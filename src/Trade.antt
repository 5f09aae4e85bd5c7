-- ===== src/Trade.antt =====
-- src/trade: how a request becomes a transaction. A request is turned into calls (Call), queued
-- for its pool and batched with others (PoolQueue), retried (Retry), handed to the trader process
-- (Manager), and sent and read back there (Trader).
pub mod Call
pub mod PoolQueue
pub mod Preprocess
pub mod Retry
pub mod Trader
pub mod Verdict
pub mod Manager
mod Tests
mod Scenarios
