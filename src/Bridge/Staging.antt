-- ===== src/Bridge/Staging.antt =====
-- src/bridge/store.ts: the space that files on their way to the messenger may take.
pub mod Tables
pub mod Calls
pub mod Shed
pub mod Bounds
