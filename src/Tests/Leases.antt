-- ===== src/Tests/Leases.antt =====
-- Leases of credentials.
use tpn_worker.Base.{pos, true, false, codes, eq_text, [], ◌∷◌, ◌≡◌, refl, arith, take}
use tpn_worker.Error.{ok}
use tpn_worker.World.{running}
use tpn_worker.Locks.{with_lock}
use tpn_worker.Db.Table.{any_row, where_rows, update_rows}
use tpn_worker.Db.Socks5.{
  lease, extend, cleanup, run, serve, get_socks5_config, get_socks5_config_priority,
  get_socks5_config_non_priority, find_free, free_rows, priority_rows, choose, has_username,
  cleanup_expired_socks5_configs,
}
use tpn_worker.Db.Socks5.Names.{Unique}
use tpn_worker.Db.Socks5.Slots.{Holds}
use tpn_worker.Db.Socks5.Priority.{run-Inv, non_priority-outside}
use tpn_worker.Db.Socks5.NoDoubleLease.{no_double_lease}
use tpn_worker.Tests.Fixtures.{still, three, credential}

Unique-three : Unique three.socks
unfolding any_row eq_text
Unique-three = (refl, (refl, (refl, tt)))

Holds-three : Holds (pos 1) three
Holds-three = record { unique = Unique-three; free = (refl, tt) }

run-Inv_example : Holds (pos 1) (
    run still
      (pos 1)
      (lease (pos 5000) false
        ∷ lease (pos 6000) true
        ∷ extend (codes "u_b") (pos 5000) (pos 9000)
        ∷ [])
      three)
run-Inv_example = run-Inv still (pos 1) _ three Holds-three

leased_b :
    (get_socks5_config still (pos 5000) false (pos 1) three).0
    ≡ ok (credential 2 (codes "u_b") true (pos 0))
unfolding running with_lock get_socks5_config get_socks5_config_non_priority find_free free_rows
    where_rows
leased_b = refl

non_priority-outside_example :
    any_row
      (has_username (codes "u_b"))
      (take 1 (get_socks5_config still (pos 5000) false (pos 1) three).1.socks)
    ≡ false
non_priority-outside_example =
    non_priority-outside still (pos 1) (pos 5000) three (credential 2 (codes "u_b") true (pos 0))
      Holds-three leased_b

leased_c :
    (get_socks5_config still (pos 7000) false (pos 1) (
      run still
        (pos 1)
        (lease (pos 6000) true ∷ cleanup ∷ [])
        (get_socks5_config still (pos 5000) false (pos 1) three).1)).0
    ≡ ok (credential 3 (codes "u_c") true (pos 0))
unfolding running with_lock get_socks5_config get_socks5_config_non_priority find_free free_rows
    where_rows run serve get_socks5_config_priority priority_rows choose update_rows
    cleanup_expired_socks5_configs eq_text
leased_c = refl

no_double_lease_example : eq_text (codes "u_c") (codes "u_b") ≡ false
no_double_lease_example =
    no_double_lease still (pos 1) (pos 5000) (pos 7000) false (lease (pos 6000) true ∷ cleanup ∷ [])
      three (credential 2 (codes "u_b") true (pos 0)) (credential 3 (codes "u_c") true (pos 0))
      Unique-three (λ k. omega arith) tt leased_b leased_c
