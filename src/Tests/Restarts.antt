-- ===== src/Tests/Restarts.antt =====
-- A first start, and a restart with one lease that has keys, one without, and one that has expired.
use tpn_worker.Base.{
  ℕ, ◌∷◌, [], pos, true, some, none, codes, ◌≡◌, refl, List, eq_text, split, parse_nat, show_nat,
}
use tpn_worker.Error.{ok}
use tpn_worker.World.{World, PeerKeys, running}
use tpn_worker.Net.Ip.{parse_ipv4, parse_octet}
use tpn_worker.Db.Table.{where_rows}
use tpn_worker.Wireguard.Server.{Server, get_peer, is_restorable, restored_state}
use tpn_worker.Wireguard.Server.Restart.{peer_after}
use tpn_worker.Wireguard.Start.{
  System, last_row, load_or_create, load_or_create_server_keys, new, start_server,
}
use tpn_worker.Wireguard.Start.Restored.{start_server_restores}
use tpn_worker.Tests.Fixtures.{still, empty, config, toy_keys, toy_server, wg_row}
use tpn_worker.Tests.Retention.{config-is_worker}

abbrev key_set : PeerKeys
key_set = record {
  private_key = codes "a";
  public_key = codes "b";
  preshared_key = [];
  allowed_ip = codes "10.13.13.3";
}

abbrev ready : System
ready = record { module_loaded = true; tun_exists = true; mknod = none; ip_runs = true }

abbrev made_server : Server × List ℕ
made_server = (
  record {
    server_public_key = toy_keys.public_key 1;
    listen_port = config.wireguard_server_port;
    subnet_base = record { o0 = 10; o1 = 13; o2 = 13; o3 = 0 };
    endpoint_host = config.server_public_host;
    dns = config.wg_dns;
  },
  toy_keys.private_key 1,
)

first_start : (new still toy_keys config empty).0 ≡ ok made_server
unfolding running new load_or_create_server_keys load_or_create last_row parse_ipv4 split parse_nat
    show_nat eq_text parse_octet
first_start = refl

abbrev restarted : World
restarted = record empty {
  server_keys = (new still toy_keys config empty).1.server_keys;
  leases =
      record { id = 1; expires_at = pos 500; keys = some key_set }
      ∷ record { id = 2; expires_at = pos 2000; keys = some key_set }
      ∷ wg_row 3 (pos 2000)
      ∷ [];
}

-- The lease of id 2 alone is restored.
second_state :
    peer_after still toy_keys toy_server 2
      (where_rows (is_restorable still toy_keys toy_server (pos 1000)) restarted.leases)
      none
    ≡ some (restored_state still toy_keys toy_server 2 key_set)
unfolding where_rows is_restorable
second_state = refl

start_server_restores_example :
    let r = start_server still toy_keys config ready restarted in
    let rows =
      where_rows (is_restorable still toy_keys made_server.0 (pos 1000)) restarted.leases in
    (r.0 ≡ ok (some made_server.0))
    × ((i : ℕ)
        → get_peer i r.1.peers
          ≡ peer_after still toy_keys made_server.0 i rows (get_peer i restarted.peers))
start_server_restores_example =
    start_server_restores still still toy_keys config ready made_server empty restarted first_start
      refl (λ k. refl) (λ k. refl) config-is_worker refl refl refl
