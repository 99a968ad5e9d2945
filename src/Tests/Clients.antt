-- ===== src/Tests/Clients.antt =====
-- Clients of the proxy.
use tpn_worker.Base.{
  ℕ, true, false, codes, eq_text, show_nat, join, List, [], ◌∷◌, ◌++◌, none, some, ◌≡◌, refl,
}
use tpn_worker.Proxy.Stream.{
  Conn, ◌>>=◌, ◌>>◌, pure, take_bytes, read_exact, read_u8, read_u16, write_all,
}
use tpn_worker.Proxy.Utf8.{from_utf8_lossy}
use tpn_worker.Proxy.Credentials.{Credentials, authenticate, password_of}
use tpn_worker.Net.Ipv6.{show_ipv6}
use tpn_worker.Net.Ip.{show_ipv4}
use tpn_worker.Proxy.Socks5.{
  Network, connected, reply, with_port, check_byte, greet, authenticate_client, read_request,
  read_target, read_domain_target, handshake, report, connect_target, send_reply, handle_connection,
}
use tpn_worker.Proxy.Socks5.Handshake.{client_bytes}
use tpn_worker.Proxy.Socks5.Access.{Served, socks5_authenticated}
use tpn_worker.Proxy.Socks5.Replies.{socks5_accepts, socks5_denies}

abbrev reachable : Network
reachable = record {
  write_fails = λ k. false;
  client_keepalive = true;
  target_keepalive = true;
  connect = λ t. connected;
}

abbrev users : Credentials
users = (codes "u_a", codes "p_x") ∷ []

-- A known user asks for t.io, port 443.
abbrev known_bytes : List ℕ
known_bytes =
    client_bytes (0 ∷ 2 ∷ []) (codes "u_a") (codes "p_x")
      (5 ∷ 1 ∷ 0 ∷ 3 ∷ 4 ∷ codes "t.io" ++ 1 ∷ 187 ∷ [])

abbrev known_client : Conn
known_client = record { input = known_bytes; sent = [] }

asked : (handle_connection reachable users known_client).0 ≡ some (codes "t.io:443")
unfolding handle_connection handshake connect_target report send_reply greet authenticate_client
    read_request read_target read_domain_target check_byte with_port ◌>>=◌ ◌>>◌ pure take_bytes
    read_exact read_u8 read_u16 write_all from_utf8_lossy authenticate password_of eq_text show_nat
asked = refl

socks5_authenticated_example :
    Served reachable users known_bytes
      (codes "t.io:443")
      (handle_connection reachable users known_client).1
socks5_authenticated_example =
    socks5_authenticated reachable users known_bytes (codes "t.io:443") asked

known : authenticate users (from_utf8_lossy (codes "u_a")) (from_utf8_lossy (codes "p_x")) ≡ true
unfolding authenticate password_of eq_text from_utf8_lossy
known = refl

socks5_accepts_example : handle_connection reachable users known_client ≡ (
  some (with_port (from_utf8_lossy (codes "t.io")) 443),
  record { input = []; sent = reply 0 ∷ (1 ∷ 0 ∷ []) ∷ (5 ∷ 2 ∷ []) ∷ [] },
)
socks5_accepts_example =
    socks5_accepts reachable users (0 ∷ 2 ∷ []) (codes "u_a") (codes "p_x") (codes "t.io") [] 0 1
      187 (λ k. refl) refl refl refl known refl

unknown : authenticate users (from_utf8_lossy (codes "u_a")) (from_utf8_lossy (codes "p_y")) ≡ false
unfolding authenticate password_of eq_text from_utf8_lossy
unknown = refl

socks5_denies_example :
    handle_connection reachable users
      (record { input = client_bytes (2 ∷ []) (codes "u_a") (codes "p_y") []; sent = [] })
    ≡ (none, record { input = []; sent = (1 ∷ 1 ∷ []) ∷ (5 ∷ 2 ∷ []) ∷ [] })
socks5_denies_example =
    socks5_denies reachable users (2 ∷ []) (codes "u_a") (codes "p_y") [] (λ k. refl) refl refl
      unknown

-- Texts of addresses, and bytes that are not UTF-8.
compressed_zeros :
    show_ipv6 (0x20 ∷ 0x01 ∷ 0x0d ∷ 0xb8 ∷ 0 ∷ 0 ∷ 0 ∷ 0 ∷ 0 ∷ 0 ∷ 0 ∷ 0 ∷ 0 ∷ 0 ∷ 0 ∷ 1 ∷ [])
    ≡ codes "2001:db8::1"
unfolding show_ipv6 join
compressed_zeros = refl

mapped_ipv4 :
    show_ipv6 (0 ∷ 0 ∷ 0 ∷ 0 ∷ 0 ∷ 0 ∷ 0 ∷ 0 ∷ 0 ∷ 0 ∷ 0xff ∷ 0xff ∷ 1 ∷ 2 ∷ 3 ∷ 4 ∷ [])
    ≡ codes "::ffff:1.2.3.4"
unfolding show_ipv6 show_ipv4 show_nat
mapped_ipv4 = refl

broken_utf8 :
    from_utf8_lossy (0x61 ∷ 0xE2 ∷ 0x82 ∷ 0x62 ∷ 0xFF ∷ [])
    ≡ 0x61 ∷ 0xEF ∷ 0xBF ∷ 0xBD ∷ 0x62 ∷ 0xEF ∷ 0xBF ∷ 0xBD ∷ []
unfolding from_utf8_lossy
broken_utf8 = refl
