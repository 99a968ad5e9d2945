-- ===== src/Net.antt =====
-- net/: addresses and host names.
pub mod Ip
pub mod Ipv6
pub mod Dns
