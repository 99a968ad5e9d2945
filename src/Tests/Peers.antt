-- ===== src/Tests/Peers.antt =====
-- Leases of WireGuard peers.
use tpn_worker.Base.{ℕ, ℤ, ◌≤◌, pos, true, codes, ◌≡◌, ◌≢◌, ◌⊎◌, refl, arith, some, show_nat}
use tpn_worker.Error.{ok, err, internal, interface_failed, lease_unavailable, no_slot}
use tpn_worker.World.{running}
use tpn_worker.Locks.{with_lock}
use tpn_worker.Db.Table.{any_row, delete_rows}
use tpn_worker.Db.Wireguard.{
  WgLease, register_wireguard_lease, try_allocate, ids, first_free, upsert_lease, is_taken,
  has_lapsed, cleanup_expired_wireguard_configs, report_exhausted, mark_config_as_free,
}
use tpn_worker.Db.Wireguard.Ids.{Ordered, lease_of}
use tpn_worker.Db.Wireguard.Allocation.{register_new_id, register_exhausted}
use tpn_worker.Wireguard.Server.{add_peer, add_peer_to_interface, require, peer_ip}
use tpn_worker.Net.Ip.{show_ipv4}
use tpn_worker.Wireguard.PeerManager.{
  PeerAllocation, allocate_peer, add_or_free, store_or_remove, store_peer_keys,
}
use tpn_worker.Wireguard.PeerManager.Rollback.{allocate_peer_rollback, allocate_peer_one_new}
use tpn_worker.Tests.Fixtures.{still, broken_kernel, one_peer, toy_keys, toy_server}

abbrev second : WgLease
second = record { peer_id = 2; expires_at = pos 3000 }

registered : (register_wireguard_lease still 1 3 (pos 3000) one_peer).0 ≡ ok second
unfolding running with_lock register_wireguard_lease try_allocate ids first_free any_row
registered = refl

one_peer-lease : lease_of 1 one_peer.leases ≡ some (pos 2000)
unfolding lease_of
one_peer-lease = refl

register_new_id_example :
    let u = (register_wireguard_lease still 1 3 (pos 3000) one_peer).1.leases in
    Ordered 1 3 u
    × (lease_of 1 u ≡ some (pos 2000))
    × (1 ≤ 2)
    × (2 ≤ 3)
    × (second.peer_id ≢ 1)
    × (second.expires_at ≡ pos 3000)
    × (lease_of 2 u ≡ some (pos 3000))
register_new_id_example =
    register_new_id still 1 3 1 (pos 2000) (pos 3000) one_peer second (omega arith) (omega arith)
      one_peer-lease (λ k. refl) registered

exhausted :
    (register_wireguard_lease still 1 1 (pos 3000) one_peer).0 ≡ err (lease_unavailable no_slot)
unfolding running with_lock register_wireguard_lease try_allocate ids first_free any_row
    cleanup_expired_wireguard_configs report_exhausted delete_rows
exhausted = refl

register_exhausted_example :
    (k : ℕ) × ((i : ℕ)
      → 1 ≤ i
      → i ≤ 1
      → is_taken i (delete_rows (has_lapsed (still.clock k)) one_peer.leases) ≡ true)
register_exhausted_example =
    register_exhausted still 1 1 (pos 3000) one_peer (omega arith) exhausted

kernel_refuses :
    (allocate_peer broken_kernel toy_keys toy_server 1 3 (pos 3000) one_peer).0
    ≡ err (internal interface_failed)
unfolding running with_lock register_wireguard_lease try_allocate ids first_free any_row
    allocate_peer add_or_free add_peer add_peer_to_interface require peer_ip show_ipv4 show_nat
kernel_refuses = refl

kept :
    lease_of 1 (allocate_peer broken_kernel toy_keys toy_server 1 3 (pos 3000) one_peer).1.leases
    ≡ some (pos 2000)
unfolding running with_lock register_wireguard_lease try_allocate ids first_free any_row
    allocate_peer add_or_free add_peer add_peer_to_interface require peer_ip show_ipv4 show_nat
    upsert_lease mark_config_as_free delete_rows lease_of
kept = refl

one_peer-Ordered : Ordered 1 3 one_peer.leases
one_peer-Ordered = (omega arith, omega arith, tt)

allocate_peer_rollback_example : lease_of 1 one_peer.leases ≡ some (pos 2000)
allocate_peer_rollback_example =
    allocate_peer_rollback broken_kernel toy_keys toy_server 1 3 (pos 3000) one_peer
      (internal interface_failed) (omega arith) (λ k. refl) one_peer-Ordered kernel_refuses 1
      (pos 2000) kept

abbrev second_peer : PeerAllocation
second_peer = record {
  peer_config = record {
    peer_id = 2;
    client_private_key = codes "priv3";
    client_address = codes "10.13.13.3";
    server_public_key = codes "srv";
    preshared_key = codes "psk4";
    endpoint = codes "1.2.3.4:51820";
    dns = codes "1.1.1.1";
  };
  peer_id = 2;
  expires_at = pos 3000;
}

allocated : (allocate_peer still toy_keys toy_server 1 3 (pos 3000) one_peer).0 ≡ ok second_peer
unfolding running with_lock register_wireguard_lease try_allocate ids first_free any_row
    allocate_peer add_or_free store_or_remove store_peer_keys add_peer add_peer_to_interface require
    peer_ip show_ipv4 show_nat
allocated = refl

allocate_peer_one_new_example :
    let u = (allocate_peer still toy_keys toy_server 1 3 (pos 3000) one_peer).1.leases in
    Ordered 1 3 u
    × (lease_of 2 u ≡ some (pos 3000))
    × ((j : ℕ) (e : ℤ) → lease_of j u ≡ some e → (2 ≡ j) ⊎ (lease_of j one_peer.leases ≡ some e))
allocate_peer_one_new_example =
    allocate_peer_one_new still toy_keys toy_server 1 3 (pos 3000) one_peer second_peer
      (omega arith) (λ k. refl) one_peer-Ordered allocated
