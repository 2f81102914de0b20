-- ===== src/Events.antt =====
-- crates/db/src: domain events on their way from one context to another.
pub mod Outbox
pub mod Inbox
pub mod Relay
mod Tests
