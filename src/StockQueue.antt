-- ===== src/StockQueue.antt =====
-- src/codex/native-stock-queue-journal.ts: the durable journal of a task's repeated admissions to the
-- native stock queue, their outcomes and what of them is to be published.
pub mod Tables
pub mod Reads
pub mod Reserve
pub mod Outcomes
pub mod Run
pub mod Effects
pub mod Writes
pub mod Receipts
pub mod Steps
pub mod Sound
pub mod Frozen
