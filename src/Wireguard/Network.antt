-- ===== src/Wireguard/Network.antt =====
-- wireguard/server.rs: `setup_networking`, which lets the kernel forward the packets of the peers.
-- The firewall and the routes are those of iptables and of the ip command, which are parameters.
pub mod Rules
use tpn_worker.Base.{
  ℕ, Bool, true, false, not, Text, codes, eq_text, List, [], ◌∷◌, ◌++◌, Option, none, some,
  get_elem?, lines, split_whitespace, trim, is_empty, show_nat, if◌then◌else◌,
}
use tpn_worker.Net.Ip.{Ipv4, show_ipv4}
use tpn_worker.Wireguard.Server.{Server}

-- A rule: its table, its chain, and the arguments that follow.
pub record Rule : Type 0 where
  pub table : Text
  pub chain : Text
  pub arguments : List Text

-- The commands, on a state of the host. `check` is `iptables -C` and answers whether it exited with
-- success, `append` is `iptables -A`; `default_route` and `route_show` are what `ip route show`
-- prints, `route_add` is `ip route add … dev …`, and `forward` writes 1 to ip_forward. `none` stands
-- for a command that cannot be run; a command that fails leaves the state as it is.
pub record Host (S : Type 0) : Type 0 where
  pub check : Rule → S → Option Bool
  pub append : Rule → S → S
  pub forward : S → S
  pub default_route : S → Option Text
  pub route_show : Text → S → Option Text
  pub route_add : Text → Text → S → S

abbrev pub passes : Option Bool → Bool
passes none = false
passes (some b) = b

abbrev pub prints : Option Text → Bool
prints none = false
prints (some out) = not (is_empty (trim out))

-- The word after the first `dev` of a line.
word_after_dev : List Text → Option Text
word_after_dev [] = none
word_after_dev (p ∷ parts) =
    let later = word_after_dev parts in if eq_text p (codes "dev") then get_elem? parts 0 else later

abbrev or_later : Option Text → Option Text → Option Text
or_later none later = later
or_later (some i) later = some i

interface_in : List Text → Option Text
unfolding word_after_dev
interface_in [] = none
interface_in (l ∷ ls) = or_later (word_after_dev (split_whitespace l)) (interface_in ls)

unfoldable pub detect_default_interface : Option Text → Option Text
unfolding interface_in
detect_default_interface none = none
detect_default_interface (some out) = interface_in (lines out)

unfoldable pub outbound : Option Text → Text
outbound none = codes "eth0"
outbound (some i) = i

abbrev pub masquerade : Text → Text → Rule
masquerade subnet outbound_iface = record {
  table = codes "nat";
  chain = codes "POSTROUTING";
  arguments =
      codes "-s" ∷ subnet ∷ codes "-o" ∷ outbound_iface ∷ codes "-j" ∷ codes "MASQUERADE" ∷ [];
}

abbrev pub forward_in : Text → Rule
forward_in wg_iface = record {
  table = codes "filter";
  chain = codes "FORWARD";
  arguments = codes "-i" ∷ wg_iface ∷ codes "-j" ∷ codes "ACCEPT" ∷ [];
}

abbrev pub forward_out : Text → Rule
forward_out wg_iface = record {
  table = codes "filter";
  chain = codes "FORWARD";
  arguments =
      codes "-o"
      ∷ wg_iface
      ∷ codes "-m"
      ∷ codes "state"
      ∷ codes "--state"
      ∷ codes "ESTABLISHED,RELATED"
      ∷ codes "-j"
      ∷ codes "ACCEPT"
      ∷ [];
}

abbrev pub input_accept : Text → ℕ → Rule
input_accept protocol port = record {
  table = codes "filter";
  chain = codes "INPUT";
  arguments =
      codes "-p" ∷ protocol ∷ codes "--dport" ∷ show_nat port ∷ codes "-j" ∷ codes "ACCEPT" ∷ [];
}

abbrev pub subnet_of : Server → Text
subnet_of server = show_ipv4 server.subnet_base ++ codes "/24"

module _ {S : Type 0} (host : Host S) where
  open host use {check, append, forward, default_route, route_show, route_add}

  -- A rule that cannot be checked is added.
  unfoldable pub ensure_rule : Rule → S → S
  ensure_rule r s = if passes (check r s) then s else append r s

  unfoldable pub ensure_route : Text → Text → S → S
  ensure_route subnet name s = if prints (route_show subnet s) then s else route_add subnet name s

  -- `check.output().and_then(…)`: a rule that cannot be checked is not added.
  after_check : Option Bool → Rule → S → S
  after_check none r s = s
  after_check (some b) r s = if b then s else append r s

  unfoldable pub allow_rule : Rule → S → S
  unfolding after_check
  allow_rule r s = after_check (check r s) r s

  -- The rules and the route, where an interface leads outward.
  unfoldable pub add_rules : Server → Text → Text → S → S
  add_rules server interface_name outbound_iface s =
      let masqueraded = ensure_rule (masquerade (subnet_of server) outbound_iface) s in
      let routed = ensure_route (subnet_of server) interface_name masqueraded in
      let incoming = allow_rule (forward_in interface_name) routed in
      let outgoing = allow_rule (forward_out interface_name) incoming in
      allow_rule (input_accept (codes "udp") server.listen_port) outgoing

  unfoldable pub setup_networking : Server → Text → S → S
  setup_networking server interface_name s =
      let forwarding = forward s in
      add_rules server interface_name
        (outbound (detect_default_interface (default_route forwarding))) forwarding
