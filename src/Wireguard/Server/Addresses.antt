-- ===== src/Wireguard/Server/Addresses.antt =====
-- The addresses of the peers.
use tpn_worker.Base.{ℕ, ◌+◌, ◌≤◌, ◌≡◌, ◌≢◌, ap, arith}
use tpn_worker.Config.{AppConfig, effective_peer_count}
use tpn_worker.Net.Ip.{Ipv4}
use tpn_worker.Wireguard.Server.{Server, peer_ip, server_address}

module _ (s : Server) (base : s.subnet_base.o3 ≡ 0) where
  peer_octet : (i : ℕ) → i ≤ 253 → (peer_ip s i).o3 ≡ i + 1
  unfolding peer_ip
  peer_octet i le = omega arith

  server_octet : (server_address s).o3 ≡ 1
  unfolding server_address
  server_octet = omega arith

-- In a subnet whose last octet is 0, the ids from 1 to the number of peers have addresses of their
-- own: two ids have two addresses, none is the server's, and the last octet is from 2 to 254.
pub peer_ip_distinct :
    (s : Server) (config : AppConfig) (i j : ℕ)
    → s.subnet_base.o3 ≡ 0
    → 1 ≤ i
    → i ≤ effective_peer_count config
    → 1 ≤ j
    → j ≤ effective_peer_count config
    → i ≢ j
    → (peer_ip s i ≢ peer_ip s j)
      × (peer_ip s i ≢ server_address s)
      × (2 ≤ (peer_ip s i).o3)
      × ((peer_ip s i).o3 ≤ 254)
unfolding effective_peer_count
peer_ip_distinct s config i j base one_i i_max one_j j_max differs =
    let i_octet = peer_octet s base i (omega arith) in
    let j_octet = peer_octet s base j (omega arith) in
    (
      λ e. differs (omega (arith, ap (λ (a : Ipv4). a.o3) e)),
      λ e. omega (arith, ap (λ (a : Ipv4). a.o3) e, server_octet s base),
      omega arith,
      omega arith,
    )
