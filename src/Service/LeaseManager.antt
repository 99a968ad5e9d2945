-- ===== src/Service/LeaseManager.antt =====
-- service/lease_manager.rs: a lease is allocated or extended, and its configuration written out.
pub mod Frame
use tpn_worker.Base.{
  ℕ, ◌%◌, ◌^◌, ℤ, pos, add_i64, mul_i64, to_word, Bool, Text, eq_text, codes, ◌∷◌, ◌++◌, Option,
  none, some, show_nat, show_int, parse_int, if◌then◌else◌, ◌==◌,
}
use tpn_worker.Base.Json.{Json, str, num, obj, end, field}
use tpn_worker.Error.{
  validation, internal, lease_unavailable, extend_expires_required, invalid_extend_ref,
  unsupported_type, invalid_type, server_unavailable, config_not_found, no_slot,
}
use tpn_worker.World.{Env, Socks5Config, M, ◌>>=◌, ◌>>◌, pure, raise, ok_or, now_ms}
use tpn_worker.Config.{AppConfig, effective_peer_count}
use tpn_worker.Db.Socks5.{
  get_socks5_config, extend_socks5_lease, read_socks5_config_by_username, count_available_socks,
  cleanup_expired_socks5_configs,
}
use tpn_worker.Db.Wireguard.{register_wireguard_lease, extend_wireguard_lease}
use tpn_worker.Wireguard.Server.{Keys, Server, PeerConfig, to_text, get_client_config}
use tpn_worker.Wireguard.PeerManager.{allocate_peer}

pub record LeaseResult : Type 0 where
  pub config_text : Option Text
  pub config_json : Option Json
  pub lease_ref : Text
  pub lease_expires_at : ℤ

-- `PeerConfig::to_json`
unfoldable pub to_json : PeerConfig → Json
to_json c = obj (
    field (codes "interface")
      (obj (
        field (codes "Address") (str c.client_address) (
          field (codes "PrivateKey") (str c.client_private_key)
            (field (codes "ListenPort") (num (pos 51820)) (field (codes "DNS") (str c.dns) end)))))
      (field (codes "peer")
        (obj (
          field (codes "PublicKey") (str c.server_public_key) (
            field (codes "PresharedKey") (str c.preshared_key) (
              field (codes "AllowedIPs") (str (codes "0.0.0.0/0, ::/0"))
                (field (codes "Endpoint") (str c.endpoint) end)))))
        end))

unfoldable pub format_peer_config : PeerConfig → Text → Option Text × Option Json
format_peer_config c format =
    if eq_text format (codes "text") then (some (to_text c), none) else (none, some (to_json c))

socks5_text : Socks5Config → Text
socks5_text s =
    codes "socks5://"
    ++ (s.username ++ (b':' ∷ (s.password ++ (b'@' ∷ (s.ip_address ++ (b':' ∷ show_nat s.port))))))

socks5_json : Socks5Config → Json
socks5_json s = obj (
    field (codes "username") (str s.username) (
      field (codes "password") (str s.password) (
        field (codes "ip_address") (str s.ip_address)
          (field (codes "port") (num (pos s.port)) end))))

unfoldable pub format_socks5_config : Socks5Config → Text → Option Text × Option Json
unfolding socks5_text socks5_json
format_socks5_config s format =
    if eq_text format (codes "text")
    then (some (socks5_text s), none)
    else (none, some (socks5_json s))

abbrev lease_result : Option Text × Option Json → Text → ℤ → LeaseResult
lease_result c lease_ref expires = record {
  config_text = c.0;
  config_json = c.1;
  lease_ref = lease_ref;
  lease_expires_at = expires;
}

-- `Utc::now().timestamp_millis() + lease_seconds * 1000`
unfoldable pub expiry : ℤ → ℤ → ℤ
expiry now lease_seconds = add_i64 now (mul_i64 lease_seconds (pos 1000))

-- `peer_id as u16` of an `i32`.
abbrev to_u16 : ℤ → ℕ
to_u16 i = to_word i % 2 ^ 16

-- The configuration of the CI mock mode.
abbrev mock_text : Text
mock_text =
    codes
      "[Interface]\nAddress = 10.0.0.2/32\nPrivateKey = mock\nDNS = 1.1.1.1\n\n[Peer]\nPublicKey = mock\nPresharedKey = mock\nAllowedIPs = 0.0.0.0/0, ::/0\nEndpoint = 127.0.0.1:51820"

abbrev mock_json : Json
mock_json = obj (
    field (codes "interface")
      (obj (
        field (codes "Address") (str (codes "10.0.0.2/32")) (
          field (codes "PrivateKey") (str (codes "mock"))
            (field (codes "DNS") (str (codes "1.1.1.1")) end))))
      (field (codes "peer")
        (obj (
          field (codes "PublicKey") (str (codes "mock")) (
            field (codes "PresharedKey") (str (codes "mock")) (
              field (codes "AllowedIPs") (str (codes "0.0.0.0/0, ::/0"))
                (field (codes "Endpoint") (str (codes "127.0.0.1:51820")) end)))))
        end))

module _ (env : Env) (keys : Keys) (config : AppConfig) (wg_server : Option Server) where
  unfoldable pub allocate_wireguard : ℤ → Text → M LeaseResult
  allocate_wireguard lease_seconds format = do
    now ← now_ms env
    let expires = expiry now lease_seconds
    let end_id = effective_peer_count config
    if config.ci_mock_wg_container
        then (do
          l ← register_wireguard_lease env 1 end_id expires
          pure (lease_result (some mock_text, some mock_json) (show_nat l.peer_id) expires))
        else do
          server ← ok_or wg_server (internal server_unavailable)
          a ← allocate_peer env keys server 1 end_id expires
          pure (
              lease_result (format_peer_config a.peer_config format) (show_nat a.peer_id)
                a.expires_at)

  -- The test for free rows of a request that is not of the priority pool.
  unfoldable pub check_availability : M (Unit {0})
  check_availability = do
    count ← count_available_socks env config.priority_slots
    if count == 0
        then (do
          cleanup_expired_socks5_configs env
          new_count ← count_available_socks env config.priority_slots
          if new_count == 0 then raise (lease_unavailable no_slot) else pure tt)
        else pure tt

  unfoldable pub allocate_socks5 : ℤ → Bool → Text → M LeaseResult
  allocate_socks5 lease_seconds priority format = do
    now ← now_ms env
    let expires = expiry now lease_seconds
    if priority then pure tt else check_availability
    sock ← get_socks5_config env expires priority config.priority_slots
    pure (lease_result (format_socks5_config sock format) sock.username expires)

  unfoldable pub extend_wireguard : Text → ℤ → ℤ → Text → M LeaseResult
  extend_wireguard ref_val expected new format = do
    i ← ok_or (parse_int (2 ^ 31) ref_val) (validation invalid_extend_ref)
    expires ← extend_wireguard_lease env i expected new
    server ← ok_or wg_server (internal server_unavailable)
    c ← get_client_config env keys server (to_u16 i)
    pure (lease_result (format_peer_config c format) (show_int i) expires)

  unfoldable pub extend_socks5 : Text → ℤ → ℤ → Text → M LeaseResult
  extend_socks5 username expected new format = do
    expires ← extend_socks5_lease env username expected new
    found ← read_socks5_config_by_username env username
    sock ← ok_or found (internal config_not_found)
    pure (lease_result (format_socks5_config sock format) username expires)

  unfoldable pub extend_lease : Text → ℤ → Text → Text → Option ℤ → M LeaseResult
  extend_lease lease_type lease_seconds format ref_val extend_expires_at = do
    expected ← ok_or extend_expires_at (validation extend_expires_required)
    now ← now_ms env
    let new = expiry now lease_seconds
    if eq_text lease_type (codes "wireguard")
        then extend_wireguard ref_val expected new format
        else if eq_text lease_type (codes "socks5")
        then extend_socks5 ref_val expected new format
        else raise (validation unsupported_type)

  unfoldable pub new_lease : Text → ℤ → Bool → Text → M LeaseResult
  new_lease lease_type lease_seconds priority format =
      if eq_text lease_type (codes "wireguard")
      then allocate_wireguard lease_seconds format
      else if eq_text lease_type (codes "socks5")
      then allocate_socks5 lease_seconds priority format
      else raise (validation invalid_type)

  unfoldable pub get_worker_config : Text → ℤ → Bool → Text → Option Text → Option ℤ → M LeaseResult
  get_worker_config lease_type lease_seconds priority format extend_ref extend_expires_at =
      elim extend_ref [
        | some ref_val ↦ extend_lease lease_type lease_seconds format ref_val extend_expires_at
        | none ↦ new_lease lease_type lease_seconds priority format
      ]
