-- ===== src/Bridge/Owners.antt =====
-- src/bridge/store.ts: which managed worker owns a task, the table `managed_owner_bindings`.
pub mod Evidence
pub mod Calls
pub mod Effects
pub mod Active
pub mod Growth
pub mod Extends
