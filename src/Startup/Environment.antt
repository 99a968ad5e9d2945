-- ===== src/Startup/Environment.antt =====
-- main.rs: the environment of the process, from the .env file and from the remote defaults. `dotenvy`
-- and curl are third-party: the pairs that the one reads and the text that the other prints are given.
pub mod Remote
use tpn_worker.Base.{
  ℕ, Bool, true, false, not, ◌&&◌, ◌||◌, ◌==◌, Text, codes, eq_text, List, [], ◌∷◌, ◌++◌, Option,
  none, some, lines, trim, split_once, starts_with, is_empty, if◌then◌else◌,
}
use tpn_worker.Base.Json.{Json, as_str, get_field}
use tpn_worker.Proxy.Utf8.{from_utf8_lossy}

-- The variables of the process.
abbrev pub Vars : Type 0
Vars = Text → Option Text

unfoldable pub set_var : Text → Text → Vars → Vars
set_var key value vars asked = if eq_text key asked then some value else vars asked

unfoldable pub remote_env_keys : List Text
remote_env_keys =
    codes "MINING_POOL_URL" ∷ codes "PAYMENT_ADDRESS_EVM" ∷ codes "PAYMENT_ADDRESS_BITTENSOR" ∷ []

unfoldable pub contains_key : List Text → Text → Bool
contains_key [] key = false
contains_key (k ∷ ks) key = eq_text k key || contains_key ks key

-- The pair that a line of the remote file sets.
set_pair : Option (Text × Text) → Vars → Vars
unfolding contains_key remote_env_keys
set_pair none vars = vars
set_pair (some (k, v)) vars =
    if contains_key remote_env_keys (trim k) && not (is_empty (trim v))
    then set_var (trim k) (trim v) vars
    else vars

unfoldable pub set_remote_line : Text → Vars → Vars
unfolding set_pair
set_remote_line line vars =
    let line = trim line in
    if is_empty line || starts_with (codes "#") line
    then vars
    else set_pair (split_once b'=' line) vars

unfoldable pub set_remote_lines : List Text → Vars → Vars
set_remote_lines [] vars = vars
set_remote_lines (l ∷ ls) vars = set_remote_lines ls (set_remote_line l vars)

-- `none` where curl cannot be run or fails.
unfoldable pub fetch_remote_defaults : Option Text → Vars → Vars
fetch_remote_defaults none vars = vars
fetch_remote_defaults (some stdout) vars = set_remote_lines (lines (from_utf8_lossy stdout)) vars

-- `PathBuf::join` with a relative path.
join_path : Text → Text → Text
join_path [] part = part
join_path (c ∷ []) part = if c == b'/' then b'/' ∷ part else c ∷ b'/' ∷ part
join_path (c ∷ d ∷ rest) part = c ∷ join_path (d ∷ rest) part

or_default : Option Text → Text → Text
or_default none d = d
or_default (some t) d = t

unfoldable pub config_dir : Vars → Text
unfolding join_path or_default
config_dir vars =
    join_path (join_path (or_default (vars (codes "HOME")) (codes "/root")) (codes ".config"))
      (codes "tpn-worker")

-- The pairs of the file, each over what was set before; none where it cannot be read.
unfoldable pub set_pairs : List (Text × Text) → Vars → Vars
set_pairs [] vars = vars
set_pairs ((k, v) ∷ pairs) vars = set_pairs pairs (set_var k v vars)

default_path : Option Text → Text → Vars → Vars
default_path none path vars = set_var (codes "SQLITE_PATH") path vars
default_path (some t) path vars = vars

unfoldable pub load_env : Text → List (Text × Text) → Vars → Vars
unfolding default_path join_path
load_env dir pairs vars =
    let loaded = set_pairs pairs vars in
    default_path (loaded (codes "SQLITE_PATH")) (join_path dir (codes "tpn-worker.db")) loaded

-- The start, in its order.
unfoldable pub bootstrap : List (Text × Text) → Option Text → Vars → Vars
bootstrap pairs remote vars = fetch_remote_defaults remote (load_env (config_dir vars) pairs vars)

module _ (parse : Text → Option Json) (is_ip : Text → Bool) where
  json_ip : Option Json → Option Text
  json_ip none = none
  json_ip (some value) = elim (get_field (codes "ip") value) [ none ↦ none | some ip ↦ as_str ip ]

  plain_ip : Text → Text
  plain_ip body = if is_ip body then body else []

  address_in : Option Text → Text → Text
  unfolding plain_ip
  address_in none body = plain_ip body
  address_in (some ip) body = if is_ip (trim ip) then trim ip else plain_ip body

  -- What curl prints, where it succeeds; the empty text where no address is in it.
  unfoldable pub detect_public_ip : Option Text → Text
  unfolding address_in json_ip
  detect_public_ip none = []
  detect_public_ip (some stdout) =
      let body = trim (from_utf8_lossy stdout) in
      if is_empty body then [] else address_in (json_ip (parse body)) body
