-- ===== src/Tests/Retention.antt =====
-- The log of registrations, labelled instants and the periodic removal.
use tpn_worker.Base.{
  ℕ, ◌+◌, pos, leb_ℤ, true, false, ◌&&◌, List, [], ◌∷◌, map, take, none, some, codes, ◌≡◌, refl,
}
use tpn_worker.World.{World, PeerState, Registration, running}
use tpn_worker.Config.{is_worker}
use tpn_worker.Db.Table.{where_rows, delete_rows, any_row, all_rows}
use tpn_worker.Db.Wireguard.{has_lapsed, expired_peer_ids}
use tpn_worker.Wireguard.Server.{get_peer, drop_peer, remove_peer, take_peer, unlink, require}
use tpn_worker.Db.RegistrationLog.{
  kept_entries, newest_first, entry, insert_registration, recent_registrations, shown,
}
use tpn_worker.Db.RegistrationLog.Bounded.{IsLog, falling, insert_registration_keeps}
use tpn_worker.Db.Cleanup.{
  database_cleanup, cleanup_timestamps, cleanup_leases, remove_expired, remove_ids,
}
use tpn_worker.Db.Cleanup.Expired.{is_id, cleanup_removes}
use tpn_worker.Tests.Fixtures.{still, empty, three, config, wg_row, toy_keys, toy_server}

empty-IsLog : IsLog empty
unfolding falling all_rows
empty-IsLog = record { falls = refl; next = refl }

pub three-IsLog : IsLog three
unfolding falling all_rows
three-IsLog = record { falls = refl; next = refl }

insert_registration_keeps_example :
    let w' = (insert_registration still (codes "u") true 200 [] [] empty).1 in
    let log : List Registration = take kept_entries (
      entry empty.next_registration_id (still.clock empty.calls) (codes "u") true 200 [] []
      ∷ newest_first empty.registrations) in
    IsLog w'
    × (((k : ℕ) → still.fails k ≡ false)
        → (newest_first w'.registrations ≡ log)
          × ((n : ℕ) → (recent_registrations still (pos n) w').0 ≡ map shown (take n log)))
insert_registration_keeps_example =
    insert_registration_keeps still empty (codes "u") true 200 [] [] empty-IsLog

abbrev peer : ℕ → PeerState
peer i = record {
  peer_id = i;
  private_key = codes "a";
  public_key = codes "b";
  preshared_key = [];
  allowed_ip = record { o0 = 10; o1 = 13; o2 = 13; o3 = i + 1 };
}

-- Peer 1 expired at 500, peer 2 is leased until 2000; it is 1000.
abbrev two_peers : World
two_peers = record empty {
  leases = wg_row 1 (pos 500) ∷ wg_row 2 (pos 2000) ∷ [];
  peers = (1, peer 1) ∷ (2, peer 2) ∷ [];
}

pub config-is_worker : is_worker config ≡ true
unfolding is_worker
config-is_worker = refl

cleanup_removes_example :
    let w' = (database_cleanup still toy_keys config (some toy_server) two_peers).1 in
    (w'.leases ≡ delete_rows (has_lapsed (pos 1000)) two_peers.leases)
    × ((i : ℕ)
        → leb_ℤ (pos 1000) (pos 1000) ≡ true
        → any_row (λ r. has_lapsed (pos 1000) r && is_id i r.id) two_peers.leases ≡ true
        → get_peer i w'.peers ≡ none)
    × ((i : ℕ)
        → any_row (λ r. has_lapsed (pos 1000) r && is_id i r.id) two_peers.leases ≡ false
        → get_peer i w'.peers ≡ get_peer i two_peers.peers)
cleanup_removes_example =
    cleanup_removes still toy_keys config toy_server two_peers (λ k. refl) config-is_worker

second_kept :
    (database_cleanup still toy_keys config (some toy_server) two_peers).1.peers ≡ (2, peer 2) ∷ []
unfolding database_cleanup cleanup_timestamps cleanup_leases remove_expired remove_ids running
    expired_peer_ids remove_peer take_peer unlink require is_worker where_rows delete_rows get_peer
    drop_peer
second_kept = refl
