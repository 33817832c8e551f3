-- ===== src/Registry.antt =====
-- src/codex/managed-worker-registry.ts: the durable ledger of worker attempts, one active attempt for each family.
pub mod Attempts
pub mod Transitions
pub mod Run
pub mod Shapes
pub mod Exclusive
pub mod Ledger
