-- ===== src/Tests/Fixtures.antt =====
-- The inputs of the runs: a table of three credentials, one priority slot, a clock that stands.
use tpn_worker.Base.{
  ℕ, ℤ, pos, Bool, true, false, Text, codes, [], ◌∷◌, ◌++◌, none, some, show_nat, is_empty, not,
}
use tpn_worker.Config.{AppConfig, worker}
use tpn_worker.World.{World, Env, Socks5Config, WgRow}
use tpn_worker.Wireguard.Server.{Keys, Server}

abbrev pub still : Env
still = record {
  fails = λ k. false;
  kernel_fails = λ k. false;
  clock = λ k. pos 1000;
  draws = λ k. k;
  hosts = λ k. none;
  pool = λ k. none;
  probes = λ k. some (codes "Connection to port succeeded!", []);
}

-- The kernel's interface answers with errors.
abbrev pub broken_kernel : Env
broken_kernel = record still { kernel_fails = λ k. true }

abbrev pub credential : ℕ → Text → Bool → ℤ → Socks5Config
credential i u available expires = record {
  id = i;
  ip_address = codes "1.2.3.4";
  port = 1080;
  username = u;
  password = codes "p_x";
  available = available;
  expires_at = expires;
  updated = pos 0;
}

abbrev pub wg_row : ℕ → ℤ → WgRow
wg_row i e = record { id = i; expires_at = e; keys = none }

abbrev pub empty : World
empty = record {
  socks = [];
  next_sock_id = 1;
  leases = [];
  registrations = [];
  next_registration_id = 1;
  timestamps = [];
  server_keys = [];
  posted = [];
  peers = [];
  interface = [];
  credentials = [];
  cache = [];
  calls = 0;
}

abbrev pub three : World
three = record empty {
  socks =
      credential 1 (codes "u_a") true (pos 0)
      ∷ credential 2 (codes "u_b") true (pos 0)
      ∷ credential 3 (codes "u_c") true (pos 0)
      ∷ [];
}

-- Peer 1 is leased until 2000.
abbrev pub one_peer : World
one_peer = record empty { leases = wg_row 1 (pos 2000) ∷ [] }

abbrev pub toy_keys : Keys
toy_keys = record {
  private_key = λ n. codes "priv" ++ show_nat n;
  preshared_key = λ n. codes "psk" ++ show_nat n;
  public_key_from_private = λ t. some t;
  public_key = λ n. codes "priv" ++ show_nat n;
  is_key = λ t. not (is_empty t);
  is_mask = λ t. true;
}

abbrev pub toy_server : Server
toy_server = record {
  server_public_key = codes "srv";
  listen_port = 51820;
  subnet_base = record { o0 = 10; o1 = 13; o2 = 13; o3 = 0 };
  endpoint_host = codes "1.2.3.4";
  dns = codes "1.1.1.1";
}

abbrev pub config : AppConfig
config = record {
  run_mode = worker;
  server_port = 3000;
  server_public_host = codes "h";
  server_public_protocol = codes "http";
  server_public_url = [];
  mining_pool_url = codes "http://p.io";
  wireguard_peer_count = 253;
  wireguard_server_port = 51820;
  wg_interface_name = codes "wg0";
  wg_subnet = codes "10.13.13.0";
  wg_dns = codes "1.1.1.1";
  socks5_port = 1080;
  proxy_credential_count = 3;
  priority_slots = pos 1;
  ci_mock_wg_container = false;
  ci_mock_worker_responses = false;
  lease_token_secret = codes "s";
  login_password = codes "p";
  jwt_secret = codes "j";
  tpn_internal_subnet = codes "10.0.0.0/8";
  tpn_external_subnet = codes "10.0.0.0/8";
  mining_pool_name = [];
  mining_pool_rewards = [];
  mining_pool_website_url = [];
  wg_public_reachability_check = false;
  wg_public_reachability_timeout_ms = 120000;
  http_proxy_port = 3128;
  dante_port = 1080;
  password_dir = codes "/passwords";
  dante_regen_dir = codes "/dante_regen_requests";
  payment_address_evm = codes "0x1";
  payment_address_bittensor = codes "5E";
  sqlite_path = codes "db";
  ci_mode = false;
  ci_mock_mining_pool_responses = false;
  force_destroy_database = false;
  beta_refresh_lease = false;
  admin_api_key = [];
  validator_lease_api_keys = [];
  github_repo = codes "shellawesome/tpn-worker";
  daemon_interval_s = 300;
  log_level = codes "info";
  broadcast_message = [];
  contact_method = [];
}
