-- ===== src/Proxy/Socks5.antt =====
-- proxy/socks5.rs: the protocol of a client that asks for a connection. The clients of the relay
-- and the listener's accept loop are I/O and are not modelled.
pub mod Handshake
pub mod Access
pub mod Replies
use tpn_worker.Base.{
  ℕ, ◌+◌, ◌*◌, Bool, true, false, not, ◌||◌, ◌==◌, List, [], ◌∷◌, ◌++◌, Option, none, some, Text,
  codes, show_nat, length, if◌then◌else◌,
}
use tpn_worker.Net.Ip.{show_ipv4}
use tpn_worker.Net.Ipv6.{show_ipv6}
use tpn_worker.Proxy.Stream.{
  Conn, Io, ◌>>=◌, ◌>>◌, pure, bail, read_u8, read_u16, read_exact, write_all,
}
use tpn_worker.Proxy.Utf8.{from_utf8_lossy}
use tpn_worker.Proxy.Credentials.{Credentials, authenticate}

-- What an attempt to connect to a target comes to.
pub data Attempt : Type 0 where
  connected refused failed timed_out : Attempt

-- The outside of a connection: whether a write fails, whether the options of the client's and of the
-- target's socket can be set, and what an attempt to connect comes to.
pub record Network : Type 0 where
  pub write_fails : ℕ → Bool
  pub client_keepalive : Bool
  pub target_keepalive : Bool
  pub connect : Text → Attempt

abbrev contains_byte : ℕ → List ℕ → Bool
contains_byte b [] = false
contains_byte b (c ∷ cs) = (c == b) || contains_byte b cs

unfoldable pub with_port : Text → ℕ → Text
with_port host port = host ++ b':' ∷ show_nat port

four_octets : List ℕ → Text
four_octets (a ∷ b ∷ c ∷ d ∷ []) = show_ipv4 (record { o0 = a; o1 = b; o2 = c; o3 = d })
four_octets _ = []

-- The message of `send_reply`.
abbrev pub reply : ℕ → List ℕ
reply code = 5 ∷ code ∷ 0 ∷ 1 ∷ 0 ∷ 0 ∷ 0 ∷ 0 ∷ 0 ∷ 0 ∷ []

module _ (net : Network) (credentials : Credentials) where
  unfoldable pub send_reply : ℕ → Io (Unit {0})
  send_reply code = write_all net.write_fails (reply code)

  unfoldable pub check_byte : Bool → Io (Unit {0})
  check_byte b = if b then pure tt else bail

  -- 1. Greeting
  unfoldable pub greet : Io (Unit {0})
  greet = do
    version ← read_u8
    check_byte (version == 5)
    nmethods ← read_u8
    methods ← read_exact nmethods
    if contains_byte 2 methods
        then write_all net.write_fails (5 ∷ 2 ∷ [])
        else (do write_all net.write_fails (5 ∷ 0xFF ∷ []); bail)

  -- 2. Authentication
  unfoldable pub authenticate_client : Io (Unit {0})
  authenticate_client = do
    auth_version ← read_u8
    check_byte (auth_version == 1)
    ulen ← read_u8
    username ← read_exact ulen
    plen ← read_u8
    password ← read_exact plen
    if authenticate credentials (from_utf8_lossy username) (from_utf8_lossy password)
        then write_all net.write_fails (1 ∷ 0 ∷ [])
        else (do write_all net.write_fails (1 ∷ 1 ∷ []); bail)

  unfoldable pub read_ipv4_target : Io Text
  unfolding four_octets
  read_ipv4_target = do
    addr ← read_exact 4
    port ← read_u16
    pure (with_port (four_octets addr) port)

  unfoldable pub read_domain_target : Io Text
  read_domain_target = do
    len ← read_u8
    domain ← read_exact len
    port ← read_u16
    pure (with_port (from_utf8_lossy domain) port)

  unfoldable pub read_ipv6_target : Io Text
  read_ipv6_target = do
    addr ← read_exact 16
    port ← read_u16
    pure (with_port (b'[' ∷ show_ipv6 addr ++ b']' ∷ []) port)

  unfoldable pub read_target : ℕ → Io Text
  read_target atyp =
      if atyp == 1
      then read_ipv4_target
      else if atyp == 3
      then read_domain_target
      else if atyp == 4
      then read_ipv6_target
      else (do send_reply 8; bail)

  -- 3. Request
  unfoldable pub read_request : Io Text
  read_request = do
    ver ← read_u8
    check_byte (ver == 5)
    cmd ← read_u8
    rsv ← read_u8
    atyp ← read_u8
    if cmd == 1 then read_target atyp else (do send_reply 7; bail)

  unfoldable pub handshake : Io Text
  handshake = do greet; authenticate_client; read_request

  -- 4. Connect to target
  unfoldable pub report : Attempt → Io (Unit {0})
  report connected = do check_byte net.target_keepalive; send_reply 0
  report refused = do send_reply 5; bail
  report failed = do send_reply 1; bail
  report timed_out = do send_reply 1; bail

  unfoldable pub connect_target : Text → Io (Unit {0})
  connect_target target = report (net.connect target)

  -- Answers the target, once the relay may start.
  unfoldable pub handle_connection : Io Text
  handle_connection = do
    check_byte net.client_keepalive
    target ← handshake
    connect_target target
    pure target
