-- ===== src/Tests/HttpClients.antt =====
-- Clients of the HTTP proxy.
use tpn_worker.Base.{
  if◌then◌else◌, true, false, codes, eq_text, split, lines, split_whitespace, split_once,
  strip_prefix, starts_with, trim, trim_start, to_lowercase, List, ℕ, [], ◌∷◌, none, some, ◌≡◌,
  refl,
}
use tpn_worker.Proxy.Stream.{Conn, ◌>>=◌, ◌>>◌, pure, bail, write_all}
use tpn_worker.Proxy.Utf8.{from_utf8_lossy}
use tpn_worker.Proxy.Credentials.{Credentials, authenticate, password_of}
use tpn_worker.Proxy.HttpConnect.{
  Network, scan_headers, read_headers, parse_request_line, auth_header, parse_basic_auth, check,
  refuse, known_pair, connect_target, authorize, handle_connection,
}
use tpn_worker.Proxy.HttpConnect.Access.{Served, http_authenticated}

abbrev decoding : Network
decoding = record {
  write_fails = λ k. false;
  client_keepalive = true;
  target_keepalive = true;
  connects = λ t. true;
  decode = λ t. if eq_text t (codes "dTpw") then some (codes "u:p") else none;
}

abbrev users : Credentials
users = (codes "u", codes "p") ∷ []

abbrev bytes : List ℕ
bytes = codes "CONNECT t.io:443 HTTP/1.1\r\nProxy-Authorization: Basic dTpw\r\n\r\n"

abbrev client : Conn
client = record { input = bytes; sent = [] }

asked : (handle_connection decoding users client).0 ≡ some (codes "t.io:443")
unfolding handle_connection authorize connect_target known_pair refuse check parse_basic_auth
    auth_header parse_request_line split_whitespace lines read_headers scan_headers authenticate
    password_of from_utf8_lossy ◌>>=◌ ◌>>◌ pure bail write_all eq_text split split_once strip_prefix
    starts_with trim trim_start to_lowercase
asked = refl

http_authenticated_example :
    Served decoding users bytes (codes "t.io:443") (handle_connection decoding users client).1
http_authenticated_example = http_authenticated decoding users bytes (codes "t.io:443") asked
