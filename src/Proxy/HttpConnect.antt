-- ===== src/Proxy/HttpConnect.antt =====
-- proxy/http_connect.rs: a client that asks for a connection by HTTP CONNECT. Base64 is third-party
-- code; case is compared, and white space split, on ASCII.
pub mod Access
use tpn_worker.Base.{
  ℕ, suc, ◌+◌, ◌*◌, ◌-◌, Bool, true, false, not, ◌&&◌, ◌||◌, ◌==◌, ltb, leb, Text, codes, eq_text,
  List, [], ◌∷◌, ◌++◌, map, Option, none, some, length, lines, split_whitespace, split_once,
  strip_prefix, starts_with, trim, to_lowercase, is_space, if◌then◌else◌,
}
use mathlib.Core.List.{reverse}
use tpn_worker.Proxy.Stream.{Conn, Io, ◌>>=◌, ◌>>◌, pure, bail, write_all}
use tpn_worker.Proxy.Utf8.{from_utf8_lossy}
use tpn_worker.Proxy.Credentials.{Credentials, authenticate}

-- The outside of a connection; `decode` is base64 followed by the test for UTF-8.
pub record Network : Type 0 where
  pub write_fails : ℕ → Bool
  pub client_keepalive : Bool
  pub target_keepalive : Bool
  pub connects : Text → Bool
  pub decode : Text → Option Text

abbrev pub max_header_size : ℕ
max_header_size = 16 * 1024

-- The bytes so far, the last one first, end with an empty line.
ends_headers : List ℕ → Bool
ends_headers (d ∷ c ∷ b ∷ a ∷ bs) = (a == 13) && ((b == 10) && ((c == 13) && (d == 10)))
ends_headers _ = false

-- `count` bytes have been read.
unfoldable pub scan_headers : ℕ → List ℕ → List ℕ → Option (List ℕ) × List ℕ
unfolding ends_headers
scan_headers count buf [] = (none, [])
scan_headers count buf (b ∷ bs) =
    let later = scan_headers (suc count) (b ∷ buf) bs in
    if ltb max_header_size (suc count)
    then (none, bs)
    else if ends_headers (b ∷ buf)
    then (some (reverse (b ∷ buf)), bs)
    else later

unfoldable pub read_headers : Io (List ℕ)
read_headers c = let (r, rest) = scan_headers 0 [] c.input in (r, record c { input = rest })

first_line : List Text → Text
first_line [] = []
first_line (l ∷ ls) = l

-- The target of a line `CONNECT target version`.
target_of : List Text → Option Text
target_of (method ∷ target ∷ version ∷ more) =
    if eq_text (to_lowercase method) (codes "connect") then some target else none
target_of _ = none

unfoldable pub parse_request_line : Text → Option Text
unfolding first_line target_of
parse_request_line headers = target_of (split_whitespace (first_line (lines headers)))

find_line : Text → List Text → Option Text
find_line prefix [] = none
find_line prefix (l ∷ ls) =
    let later = find_line prefix ls in if starts_with prefix (to_lowercase l) then some l else later

value_of : Option Text → Option Text
value_of none = none
value_of (some line) = elim (split_once b':' line) [
  | none ↦ none
  | some (name, value) ↦ some (trim value)
]

-- The value of the first such header.
unfoldable pub auth_header : Text → Option Text
unfolding find_line value_of
auth_header headers = value_of (find_line (codes "proxy-authorization:") (lines headers))

or_else : Option Text → Option Text → Option Text
or_else (some t) later = some t
or_else none later = later

decoded_pair : Option Text → Option (Text × Text)
decoded_pair none = none
decoded_pair (some t) = split_once b':' t

decode_rest : (Text → Option Text) → Option Text → Option (Text × Text)
unfolding decoded_pair
decode_rest decode none = none
decode_rest decode (some v) = decoded_pair (decode (trim v))

unfoldable pub parse_basic_auth : (Text → Option Text) → Option Text → Option (Text × Text)
unfolding or_else decode_rest
parse_basic_auth decode none = none
parse_basic_auth decode (some value) =
    decode_rest decode
      (or_else (strip_prefix (codes "Basic ") value) (strip_prefix (codes "basic ") value))

abbrev pub bad_request : Text
bad_request = codes "HTTP/1.1 400 Bad Request\r\n\r\n"

abbrev pub auth_required : Text
auth_required =
    codes
      "HTTP/1.1 407 Proxy Authentication Required\r\nProxy-Authenticate: Basic realm=\"TPN Proxy\"\r\n\r\n"

abbrev pub bad_gateway : Text
bad_gateway = codes "HTTP/1.1 502 Bad Gateway\r\n\r\n"

abbrev pub established : Text
established = codes "HTTP/1.1 200 Connection established\r\n\r\n"

module _ (net : Network) (credentials : Credentials) where
  unfoldable pub check : Bool → Io (Unit {0})
  check b = if b then pure tt else bail

  -- A last message.
  unfoldable pub refuse {ℓ} : {A : Type ℓ} → Text → Io A
  refuse message = do write_all net.write_fails message; bail

  unfoldable pub known_pair : Option (Text × Text) → Bool
  known_pair none = false
  known_pair (some (username, password)) = authenticate credentials username password

  unfoldable pub connect_target : Text → Io (Unit {0})
  connect_target target =
      if net.connects target
      then (do check net.target_keepalive; write_all net.write_fails established)
      else refuse bad_gateway

  unfoldable pub authorize : Text → Text → Io Text
  authorize headers target =
      if known_pair (parse_basic_auth net.decode (auth_header headers))
      then (do connect_target target; pure target)
      else refuse auth_required

  -- Answers the target, once the relay may start.
  unfoldable pub handle_connection : Io Text
  handle_connection = do
    check net.client_keepalive
    bytes ← read_headers
    let headers = from_utf8_lossy bytes
    elim (parse_request_line headers) [
      | none ↦ refuse bad_request
      | some target ↦ authorize headers target
    ]
