-- ===== src/Runtime/Email.antt =====
-- Outgoing email: hermes_cloud/execute/email_send.py over the stores of hermes_cloud/email/receipts.py.
pub mod Letter
pub mod Receipts
pub mod Sender
pub mod Outcomes
pub mod Once
