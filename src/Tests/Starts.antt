-- ===== src/Tests/Starts.antt =====
-- Starts of a worker on a host with no rules, and the environment at the start.
use tpn_worker.Base.{
  Bool, true, false, ltb, ◌++◌, if◌then◌else◌, ◌||◌, Text, codes, eq_text, List, [], ◌∷◌, none,
  some, ◌≡◌, refl, lines, split, split_once, split_whitespace, trim, trim_start, starts_with,
  strip_prefix,
}
use tpn_worker.Proxy.Utf8.{from_utf8_lossy}
use tpn_worker.Wireguard.Network.{Rule, Host, detect_default_interface, setup_networking}
use tpn_worker.Wireguard.Network.Rules.{count_rule}
use tpn_worker.Startup.{open_ports}
use tpn_worker.Startup.Environment.{
  Vars, set_var, set_pairs, contains_key, remote_env_keys, set_remote_line, set_remote_lines,
  fetch_remote_defaults, config_dir, load_env, bootstrap,
}
use tpn_worker.Startup.Environment.Remote.{IsManaged, bootstrap_vars}
use tpn_worker.Tests.Fixtures.{config, toy_server}

-- A host as the lists of its rules and routes, on which the rules may be changed or not.
record Listed : Type 0 where
  permitted : Bool
  forwarding : Bool
  rules : List Rule
  routes : List Text

has_route : Text → List Text → Bool
has_route n [] = false
has_route n (m ∷ ms) = eq_text n m || has_route n ms

shown_route : Bool → Text
shown_route true = codes "scope link"
shown_route false = []

abbrev listed : Host Listed
listed = record {
  check = λ r s. some (ltb 0 (count_rule r s.rules));
  append = λ r s. record s { rules = if s.permitted then s.rules ++ r ∷ [] else s.rules };
  forward = λ s. record s { forwarding = true };
  default_route = λ s. some (codes "default via 10.0.0.1 dev ens3 proto dhcp\n");
  route_show = λ n s. some (shown_route (has_route n s.routes));
  route_add = λ n d s. record s { routes = n ∷ s.routes };
}

abbrev bare : Listed
bare = record { permitted = true; forwarding = false; rules = []; routes = [] }

abbrev started : Listed
started =
    open_ports listed config (setup_networking listed toy_server config.wg_interface_name bare)

outward_found :
    detect_default_interface (some (codes "default via 10.0.0.1 dev ens3 proto dhcp\n"))
    ≡ some (codes "ens3")
unfolding detect_default_interface lines split split_whitespace eq_text
outward_found = refl

abbrev given : Vars
given = set_var (codes "PATH") (codes "/bin") (λ k. none)

abbrev file : List (Text × Text)
file = (codes "MINING_POOL_URL", codes "http://a") ∷ (codes "SOCKS5_PORT", codes "1080") ∷ []

abbrev remote : Text
remote = codes "# managed\nMINING_POOL_URL=http://b\nPATH=/tmp\nPAYMENT_ADDRESS_EVM=\n"

bootstrap_vars_example :
    ((k : Text)
      → IsManaged k (load_env (config_dir given) file given) (bootstrap file (some remote) given))
    × ((p : Text) × (load_env (config_dir given) file given (codes "SQLITE_PATH") ≡ some p))
bootstrap_vars_example = bootstrap_vars file (some remote) given

-- The managed variable is taken over the file's, and no other.
url_managed : bootstrap file (some remote) given (codes "MINING_POOL_URL") ≡ some (codes "http://b")
unfolding bootstrap fetch_remote_defaults set_remote_lines set_remote_line load_env config_dir
    set_pairs set_var from_utf8_lossy lines split split_once trim trim_start starts_with
    strip_prefix eq_text contains_key remote_env_keys
url_managed = refl

path_kept : bootstrap file (some remote) given (codes "PATH") ≡ some (codes "/bin")
unfolding bootstrap fetch_remote_defaults set_remote_lines set_remote_line load_env config_dir
    set_pairs set_var from_utf8_lossy lines split split_once trim trim_start starts_with
    strip_prefix eq_text contains_key remote_env_keys
path_kept = refl
