-- ===== src/Wireguard/Start.antt =====
-- wireguard/server.rs: the check of the system, the server's keys, and the creation of the server
-- and of its interface. What the files and commands of the system come to is given.
pub mod SameKeys
pub mod Restored
use tpn_worker.Base.{
  ℕ, Bool, true, false, not, ◌&&◌, ◌||◌, ◌++◌, Text, List, [], ◌∷◌, Option, none, some,
  if◌then◌else◌,
}
use tpn_worker.Error.{
  Result, ok, err, internal, bad_subnet, tun_missing, ip_missing, interface_failed,
}
use tpn_worker.World.{
  World, Env, ServerKeyRow, M, ◌>>=◌, ◌>>◌, pure, raise, ignore, ok_or, kernel_call, fetch, execute,
  draw, probe,
}
use tpn_worker.Config.{AppConfig, is_worker}
use tpn_worker.Net.Ip.{parse_ipv4}
use tpn_worker.Wireguard.Server.{Keys, Server, restore_peers}

-- The system before the start: whether the module of the kernel is loaded and /dev/net/tun exists,
-- whether mknod can be run and succeeds, and whether the ip command can be run.
pub record System : Type 0 where
  pub module_loaded : Bool
  pub tun_exists : Bool
  pub mknod : Option Bool
  pub ip_runs : Bool

after_mknod : Option Bool → Bool
after_mknod none = false
after_mknod (some success) = success

-- Whether modprobe succeeds does not matter.
unfoldable pub preflight_check : System → M (Unit {0})
unfolding after_mknod
preflight_check system =
    if system.tun_exists || after_mknod system.mknod
    then (if system.ip_runs then pure tt else raise (internal ip_missing))
    else raise (internal tun_missing)

-- `ORDER BY id DESC LIMIT 1`
unfoldable pub last_row : List ServerKeyRow → Option ServerKeyRow
last_row [] = none
last_row (r ∷ []) = some r
last_row (r ∷ s ∷ rows) = last_row (s ∷ rows)

module _ (env : Env) (keys : Keys) where
  unfoldable pub load_or_create : Option ServerKeyRow → M ServerKeyRow
  load_or_create (some row) = pure row
  load_or_create none = do
    k ← draw env
    let row : ServerKeyRow = record {
      private_key = keys.private_key k;
      public_key = keys.public_key k;
    }
    execute env (λ w. record w { server_keys = w.server_keys ++ (row ∷ []) })
    pure row

  unfoldable pub load_or_create_server_keys : M ServerKeyRow
  load_or_create_server_keys = do
    existing ← fetch env (λ w. last_row w.server_keys)
    load_or_create existing

  -- `WGApi::new` and `create_interface`
  create_interface : M (Unit {0})
  create_interface = kernel_call env (internal interface_failed) (λ w. (tt, w))

  -- `configure_interface` with no peers.
  configure_interface : M (Unit {0})
  configure_interface =
      kernel_call env (internal interface_failed) (λ w. (tt, record w { interface = [] }))

  -- The server, and the private key of its interface.
  unfoldable pub new : AppConfig → M (Server × Text)
  unfolding create_interface
  new config = do
    subnet_base ← ok_or (parse_ipv4 config.wg_subnet) (internal bad_subnet)
    row ← load_or_create_server_keys
    create_interface
    pure (
      record {
        server_public_key = row.public_key;
        listen_port = config.wireguard_server_port;
        subnet_base = subnet_base;
        endpoint_host = config.server_public_host;
        dns = config.wg_dns;
      },
      row.private_key,
    )

  -- The interface is created and configured with no peers; then the network is set up.
  unfoldable pub start : M (Unit {0})
  unfolding create_interface configure_interface
  start = do create_interface; configure_interface

  -- An error is that the process exits; a failure to restore the peers is reported and no more. The
  -- wait for the public port, which only warns, is in Reachability.
  unfoldable pub start_server : AppConfig → System → M (Option Server)
  start_server config system =
      if is_worker config && not config.ci_mock_wg_container
      then (do
        preflight_check system
        (server, private_key) ← new config
        start
        ignore (restore_peers env keys server)
        pure (some server))
      else pure none
