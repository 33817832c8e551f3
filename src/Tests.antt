-- ===== src/Tests.antt =====
-- Concrete runs of the models, and each theorem applied to one.
mod Journal
mod Queue
mod Policy
mod Bridge
mod Inbox
mod Frames
mod Staging
mod Owners
mod StockQueue
mod Actions
mod Handoffs
