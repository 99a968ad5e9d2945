-- ===== src/Wireguard.antt =====
-- wireguard/: the embedded server and the allocation of its peers.
pub mod Server
pub mod PeerManager
pub mod Reachability
pub mod Network
pub mod Start
