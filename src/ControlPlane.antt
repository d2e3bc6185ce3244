-- ===== src/ControlPlane.antt =====
-- The control plane, control_plane.
pub mod Rows
pub mod Schema
pub mod Jobs
pub mod Auth
pub mod Routing
pub mod RateLimit
pub mod Consent
pub mod Configs
pub mod Bootstrap
pub mod Withdrawal
pub mod Revisions
mod Tests
