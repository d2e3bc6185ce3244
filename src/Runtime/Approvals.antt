-- ===== src/Runtime/Approvals.antt =====
-- hermes_cloud/core/approvals.py: staged confirmations. SHA-256 and the canonical JSON are the
-- parameter `Digests`; codes are lists of code points; `fresh` arguments are what `new_id()` returns.
pub mod Code
pub mod Store
pub mod Claim
pub mod Once
pub mod Changes
pub mod Invariant
pub mod Limits
pub mod Guessing
