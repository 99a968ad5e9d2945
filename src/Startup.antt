-- ===== src/Startup.antt =====
-- main.rs: what the process does before it serves: its environment, its secrets, and the firewall.
pub mod Environment
pub mod Firewall
use tpn_worker.Base.{ℕ, Text, codes, is_empty, if◌then◌else◌}
use tpn_worker.Config.{AppConfig, is_worker}
use tpn_worker.Wireguard.Server.{Server}
use tpn_worker.Wireguard.Network.{Host, input_accept, ensure_rule, setup_networking}

-- Secrets that are not given are drawn: 64 letters and digits each.
unfoldable pub fill_secrets : Text → Text → AppConfig → AppConfig
fill_secrets lease_secret jwt_secret config = record config {
  lease_token_secret =
      if is_empty config.lease_token_secret then lease_secret else config.lease_token_secret;
  jwt_secret = if is_empty config.jwt_secret then jwt_secret else config.jwt_secret;
}

module _ {S : Type 0} (host : Host S) (config : AppConfig) where
  unfoldable pub ensure_tcp_input_accept : ℕ → S → S
  ensure_tcp_input_accept port s = ensure_rule host (input_accept (codes "tcp") port) s

  -- The ports of the proxies and of the endpoint.
  unfoldable pub open_ports : S → S
  open_ports s =
      if is_worker config
      then ensure_tcp_input_accept config.server_port (
          ensure_tcp_input_accept config.http_proxy_port
            (ensure_tcp_input_accept config.socks5_port s))
      else s
