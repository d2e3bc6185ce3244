-- ===== src/Runtime.antt =====
-- The household runtime, hermes_cloud.
pub mod Schema
pub mod Effects
pub mod Approvals
pub mod Events
pub mod Commitments
pub mod Memory
pub mod Reminders
pub mod RunContext
pub mod Webhook
pub mod Email
mod Tests
