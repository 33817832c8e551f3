-- ===== src/OperationJournal.antt =====
-- src/codex/managed-worker-operation-journal.ts: the durable journal of the mutations that a managed
-- worker's owner sends to its backend, one unsettled mutation at a time.
pub mod Tables
pub mod Commands
pub mod Settings
pub mod Run
pub mod Rows
pub mod Effects
pub mod Invariant
pub mod Sound
pub mod Settled
