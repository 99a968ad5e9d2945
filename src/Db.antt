-- ===== src/Db.antt =====
-- db/: the tables and their statements.
pub mod Table
pub mod Socks5
pub mod Rows
pub mod Wireguard
pub mod RegistrationLog
pub mod Timestamps
pub mod Init
pub mod Cleanup
