-- ===== src/Runtime/Tests.antt =====
-- Concrete databases, and the theorems of the runtime at them.
mod Data
mod Journal
mod Claims
mod Intake
mod Household
mod Mail
