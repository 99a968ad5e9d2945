-- ===== src/Db/Cleanup.antt =====
-- db/cleanup.rs: the periodic removal of what has expired. Statements that fail are reported and no
-- more.
pub mod Expired
use tpn_worker.Base.{
  ℕ, ◌%◌, ◌^◌, ◌*◌, ℤ, negsuc, ◌-◌, ltb_ℤ, add_i64, List, Option, none, some, if◌then◌else◌,
}
use tpn_worker.World.{World, Env, M, ◌>>=◌, ◌>>◌, pure, ignore, for_each, now_ms, execute}
use tpn_worker.Config.{AppConfig, is_worker}
use tpn_worker.Db.Table.{delete_rows}
use tpn_worker.Db.Wireguard.{has_lapsed, expired_peer_ids}
use tpn_worker.Wireguard.Server.{Keys, Server, remove_peer}

abbrev pub stale_1_year_ms : ℕ
stale_1_year_ms = 365 * 24 * 60 * 60 * 1000

module _ (env : Env) (keys : Keys) where
  unfoldable pub cleanup_timestamps : ℤ → M (Unit {0})
  cleanup_timestamps cutoff = ignore (
      execute env
        λ w. record w { timestamps = delete_rows (λ t. ltb_ℤ t.updated cutoff) w.timestamps })

  unfoldable pub cleanup_leases : ℤ → M (Unit {0})
  cleanup_leases cutoff =
      ignore (execute env λ w. record w { leases = delete_rows (has_lapsed cutoff) w.leases })

  -- `server.remove_peer(*id as u16)`, of which a failure is reported.
  unfoldable pub remove_ids : Server → List ℕ → M (Unit {0})
  remove_ids server ids = for_each ids (λ i. ignore (remove_peer env keys server (i % 2 ^ 16)))

  unfoldable pub remove_expired : Option Server → M (Unit {0})
  remove_expired none = pure tt
  remove_expired (some server) = ignore do ids ← expired_peer_ids env; remove_ids server ids

  unfoldable pub database_cleanup : AppConfig → Option Server → M (Unit {0})
  database_cleanup config wg_server = do
    now ← now_ms env
    cleanup_timestamps (add_i64 now (negsuc (stale_1_year_ms - 1)))
    if is_worker config then (do remove_expired wg_server; cleanup_leases now) else pure tt
