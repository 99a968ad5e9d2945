-- ===== src/Api.antt =====
-- api/: the HTTP handlers.
pub mod Lease
pub mod Admin
pub mod Logs
pub mod Auth
pub mod Upgrade
pub mod Health
pub mod Stats
