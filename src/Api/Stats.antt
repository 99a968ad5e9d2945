-- ===== src/Api/Stats.antt =====
-- api/status.rs: the counters of the worker. The seconds since the start are given.
use tpn_worker.Base.{ℕ, ℤ, pos, Text, codes, length}
use tpn_worker.Base.Json.{Json, str, num, obj, end, field}
use tpn_worker.Error.{ok, err}
use tpn_worker.World.{World, Env}
use tpn_worker.Config.{AppConfig, show_mode, effective_peer_count}
use tpn_worker.Db.Wireguard.{check_open_leases}
use tpn_worker.Db.Socks5.{count_available_socks}

module _ (env : Env) (config : AppConfig) (version : Text) where
  counters : ℤ → ℕ → ℕ → Json
  counters uptime active available = obj (
      field (codes "status") (str (codes "ok")) (
        field (codes "mode") (str (show_mode config.run_mode)) (
          field (codes "uptime_seconds") (num uptime) (
            field (codes "version") (str version) (
              field (codes "wireguard")
                (obj (
                  field (codes "peer_count") (num (pos (effective_peer_count config)))
                    (field (codes "active_leases") (num (pos active)) end)))
                (field (codes "socks5")
                  (obj (
                    field (codes "priority_slots") (num config.priority_slots)
                      (field (codes "available_non_priority") (num (pos available)) end)))
                  end))))))

  -- Leases that cannot be read count as none, and so do credentials.
  unfoldable pub stats : ℤ → World → Json × World
  unfolding counters
  stats uptime w =
      let (leases, w') = check_open_leases env w in
      let (r, w'') = count_available_socks env config.priority_slots w' in
      let available : ℕ = elim r [ ok n ↦ n | err e ↦ 0 ] in
      (counters uptime (length leases) available, w'')
