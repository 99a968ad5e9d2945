-- ===== src/Service/MiningPool.antt =====
-- service/mining_pool.rs: the registration of the worker with the mining pool. The order of the
-- fields of an object is not modelled; the parsing of the answer is a parameter.
pub mod Frame
pub mod Registered
pub mod Outcome
use tpn_worker.Base.{
  ℕ, ℤ, pos, Bool, true, false, Text, codes, is_empty, List, Option, none, some, ◌++◌,
  if◌then◌else◌,
}
use tpn_worker.Base.Json.{Json, Fields, str, num, obj, end, field, as_bool, as_str, get_field}
use tpn_worker.Error.{AppError, internal, failed_call}
use tpn_worker.World.{Env, PoolResponse, M, ◌>>=◌, ◌>>◌, pure, catch, ok_or, call, post}
use tpn_worker.Config.{AppConfig, base_url, effective_mining_pool_url}
use tpn_worker.Db.RegistrationLog.{insert_registration}
use tpn_worker.Service.LeaseManager.{LeaseResult, get_worker_config}
use tpn_worker.Wireguard.Server.{Keys, Server}
use tpn_worker.Wireguard.Reachability.{public_udp_reachable}

abbrev pub or_else {ℓ} : {A : Type ℓ} → Option A → Option A → Option A
or_else none o = o
or_else (some a) o = some a

abbrev pub bool_at : Text → Json → Option Bool
bool_at k body = elim (get_field k body) [ none ↦ none | some v ↦ as_bool v ]

-- `registered`, or else `success`, or else false.
unfoldable pub registered_in : Json → Bool
registered_in body =
    elim (or_else (bool_at (codes "registered") body) (bool_at (codes "success") body)) [
      | none ↦ false
      | some b ↦ b
    ]

unfoldable pub error_in : Json → Text
error_in body = elim (get_field (codes "error") body) [
  | none ↦ codes ""
  | some v ↦ elim (as_str v) [ none ↦ codes "" | some t ↦ t ]
]

abbrev pub with_text : Text → Option Text → Fields → Fields
with_text k none fs = fs
with_text k (some t) fs = field k (str t) fs

unfoldable pub worker_object : AppConfig → Option Text → Option Text → Json
worker_object config wireguard socks5 = obj (
    with_text (codes "wireguard_config") wireguard (
      with_text (codes "socks5_config") socks5 (
        field (codes "mining_pool_url") (str (effective_mining_pool_url config)) (
          field (codes "public_url") (str (base_url config)) (
            field (codes "public_port") (num (pos config.server_port)) (
              field (codes "payment_address_evm") (str config.payment_address_evm) (
                field (codes "payment_address_bittensor") (str config.payment_address_bittensor)
                  end)))))))

module _ (env : Env) (keys : Keys) (parse : Text → Option Json) (config : AppConfig)
    (wg_server : Option Server) where
  -- A lease of two minutes, as text; without one, nothing is attached.
  unfoldable pub lease_text : Text → M (Option Text)
  lease_text kind =
      catch
        (do
          lease ←
              get_worker_config env keys config wg_server kind (pos 120) false (codes "text") none
                none
          pure lease.config_text)
        (λ e. pure none)

  -- A server whose public port does not answer has no lease taken.
  unfoldable pub wireguard_text : Option Server → M (Option Text)
  wireguard_text none = lease_text (codes "wireguard")
  wireguard_text (some server) = do
    ready ← public_udp_reachable env server
    if ready then lease_text (codes "wireguard") else pure none

  -- The answer of the mining pool, which the log keeps.
  unfoldable pub read_answer : Option PoolResponse → M Bool
  read_answer response = do
    r ← ok_or response (internal failed_call)
    text ← ok_or r.body (internal failed_call)
    body ← ok_or (parse text) (internal failed_call)
    insert_registration env (effective_mining_pool_url config) (registered_in body) r.code text
        (error_in body)
    pure (registered_in body)

  -- `Client::builder().build()`, which does nothing outside.
  unfoldable pub build_client : M (Unit {0})
  build_client = call env (internal failed_call) (λ w. (tt, w))

  unfoldable pub register_with_mining_pool : M Bool
  register_with_mining_pool = do
    wireguard ← wireguard_text wg_server
    socks5 ← lease_text (codes "socks5")
    build_client
    response ← post env (worker_object config wireguard socks5)
    read_answer response
