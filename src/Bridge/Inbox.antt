-- ===== src/Bridge/Inbox.antt =====
-- src/bridge/store.ts: the journal of VK messages on their way to Codex, with the prompt operations that
-- carry them.
pub mod Tables
pub mod Replay
pub mod Dispatch
pub mod Run
pub mod Rows
pub mod Spent
pub mod Life
pub mod Refines
pub mod Held
pub mod Late
pub mod Filed
pub mod Once
pub mod Keyed
pub mod Handed
pub mod HeldBack
pub mod Restart
pub mod Settled
