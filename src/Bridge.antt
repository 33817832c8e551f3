-- ===== src/Bridge.antt =====
-- src/bridge/store.ts: the durable state of the bridge between VK chats and Codex tasks, a part of its tables in
-- each child.
pub mod Inbox
pub mod Staging
pub mod Identity
pub mod Owners
pub mod Actions
pub mod Receipts
pub mod Handoffs
