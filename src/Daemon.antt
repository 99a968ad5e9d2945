-- ===== src/Daemon.antt =====
-- main.rs: the tasks in the background, which register the worker and clean up.
pub mod Registration
use tpn_worker.Base.{ℕ, zero, suc, Bool, true, false, Text, Option, none, some, if◌then◌else◌}
use tpn_worker.Base.Json.{Json}
use tpn_worker.Error.{Result, ok, err}
use tpn_worker.World.{World, Env, M, ◌>>=◌, ◌>>◌, pure, ignore}
use tpn_worker.Config.{AppConfig, is_worker}
use tpn_worker.Db.Cleanup.{database_cleanup}
use tpn_worker.Proxy.Credentials.{reload_from_db}
use tpn_worker.Service.MiningPool.{register_with_mining_pool}
use tpn_worker.Wireguard.Server.{Keys, Server}

-- An attempt ends the loop if it answers `Ok(true)`; any other is followed by the next.
abbrev pub ends_or : Result Bool → World → Option World → Option World
ends_or (ok true) w next = some w
ends_or (ok false) w next = next
ends_or (err e) w next = next

module _ (env : Env) (keys : Keys) (parse : Text → Option Json) (config : AppConfig)
    (wg_server : Option Server) where
  -- `loop { match register().await { Ok(true) => break, … }; sleep(30s) }`; `none` means that the
  -- fuel, the number of attempts, ran out.
  unfoldable pub register_until : ℕ → World → Option World
  register_until zero w = none
  register_until (suc fuel) w =
      let r = register_with_mining_pool env keys parse config wg_server w in
      let next = register_until fuel r.1 in ends_or r.0 r.1 next

  unfoldable pub register_at_start : ℕ → World → Option World
  register_at_start fuel w = if is_worker config then register_until fuel w else some w

  -- A tick of the periodic task; what fails is reported and no more.
  unfoldable pub daemon_tick : M (Unit {0})
  daemon_tick = do
    database_cleanup env keys config wg_server
    ignore (reload_from_db env)
    if is_worker config
        then ignore (register_with_mining_pool env keys parse config wg_server)
        else pure tt
