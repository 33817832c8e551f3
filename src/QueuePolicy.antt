-- ===== src/QueuePolicy.antt =====
-- src/codex/homogeneous-queue-policy.ts: the admission policy for plain-text follow-ups to a stock
-- queue, all of which run under the same settings.
pub mod Validation
pub mod Types
pub mod Admission
pub mod Observe
pub mod Run
mod Entries
pub mod Issued
pub mod Invariant
pub mod Stranded
pub mod Tickets
