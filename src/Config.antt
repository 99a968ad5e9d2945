-- ===== src/Config.antt =====
-- config.rs: the run modes, the settings, and the values derived from them. The parsing of the
-- command line and of the environment is the library's.
use tpn_worker.Base.{
  ℕ, ℤ, Bool, true, false, min, max, Text, eq_text, codes, ◌∷◌, ◌++◌, Option, none, some, is_empty,
  trim_end_matches, to_lowercase, show_nat, if◌then◌else◌,
}

pub data RunMode : Type 0 where
  validator miner worker : RunMode

-- `Display`
unfoldable pub show_mode : RunMode → Text
show_mode validator = codes "validator"
show_mode miner = codes "miner"
show_mode worker = codes "worker"

-- `FromStr`
unfoldable pub parse_mode : Text → Option RunMode
parse_mode s =
    let l = to_lowercase s in
    if eq_text l (codes "validator")
    then some validator
    else if eq_text l (codes "miner")
    then some miner
    else if eq_text l (codes "worker")
    then some worker
    else none

pub record AppConfig : Type 0 where
  pub run_mode : RunMode
  pub server_port : ℕ
  pub server_public_host : Text
  pub server_public_protocol : Text
  pub server_public_url : Text
  pub mining_pool_url : Text
  pub mining_pool_name : Text
  pub mining_pool_rewards : Text
  pub mining_pool_website_url : Text
  pub wireguard_peer_count : ℕ
  pub wireguard_server_port : ℕ
  pub wg_interface_name : Text
  pub wg_subnet : Text
  pub wg_dns : Text
  pub wg_public_reachability_check : Bool
  pub wg_public_reachability_timeout_ms : ℕ
  pub socks5_port : ℕ
  pub http_proxy_port : ℕ
  pub proxy_credential_count : ℕ
  pub dante_port : ℕ
  pub password_dir : Text
  pub dante_regen_dir : Text
  pub priority_slots : ℤ
  pub payment_address_evm : Text
  pub payment_address_bittensor : Text
  pub sqlite_path : Text
  pub ci_mode : Bool
  pub ci_mock_wg_container : Bool
  pub ci_mock_worker_responses : Bool
  pub ci_mock_mining_pool_responses : Bool
  pub force_destroy_database : Bool
  pub beta_refresh_lease : Bool
  pub lease_token_secret : Text
  pub admin_api_key : Text
  pub validator_lease_api_keys : Text
  pub login_password : Text
  pub jwt_secret : Text
  pub github_repo : Text
  pub daemon_interval_s : ℕ
  pub log_level : Text
  pub broadcast_message : Text
  pub contact_method : Text
  pub tpn_internal_subnet : Text
  pub tpn_external_subnet : Text

module _ (config : AppConfig) where
  open config use {server_public_url, server_public_protocol, server_public_host, server_port}

  unfoldable pub base_url : Text
  base_url =
      if is_empty server_public_url
      then server_public_protocol
        ++ (codes "://" ++ (server_public_host ++ (b':' ∷ show_nat server_port)))
      else trim_end_matches b'/' server_public_url

  unfoldable pub effective_mining_pool_url : Text
  effective_mining_pool_url =
      let url = trim_end_matches b'/' config.mining_pool_url in
      if is_empty url then codes "http://165.227.133.192:3000" else url

  -- Clamped to the hosts of a /24 subnet.
  unfoldable pub effective_peer_count : ℕ
  effective_peer_count = min (max config.wireguard_peer_count 1) 253

  unfoldable pub is_worker : Bool
  is_worker = elim config.run_mode [ worker ↦ true | _ ↦ false ]
