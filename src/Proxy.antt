-- ===== src/Proxy.antt =====
-- proxy/: the credentials, and the two protocols by which a client asks for a connection.
pub mod Stream
pub mod Utf8
pub mod Credentials
pub mod Socks5
pub mod HttpConnect
