-- ===== src/Startup/Firewall.antt =====
-- The rules of the firewall after a worker's start.
use tpn_worker.Base.{ℕ, Text, codes, List}
use tpn_worker.Config.{AppConfig}
use tpn_worker.Wireguard.Server.{Server}
use tpn_worker.Wireguard.Network.{
  Rule, Host, masquerade, forward_in, forward_out, input_accept, subnet_of,
  detect_default_interface, outbound,
}
use tpn_worker.Wireguard.Network.Rules.{FirewallLaws, IsCareful, IsThere, IsThere-after}

module _ {S : Type 0} (host : Host S) (rules : S → List Rule) (laws : FirewallLaws host rules) where
  abbrev Careful : (S → S) → Type 0
  Careful = IsCareful host rules laws

  abbrev There : Rule → S → S → Type 0
  There = IsThere host rules laws

  after :
      {f : S → S} → Careful f → (r : Rule) (origin s : S) → There r origin s → There r origin (f s)
  after = IsThere-after host rules laws

  module _ (server : Server) (name : Text) where
    -- The rules for the peers, where an interface leads outward.
    pub record HasPeerRules (outbound_iface : Text) (origin s : S) : Type 0 where
      pub masqueraded : There (masquerade (subnet_of server) outbound_iface) origin s
      pub incoming : There (forward_in name) origin s
      pub outgoing : There (forward_out name) origin s
      pub listening : There (input_accept (codes "udp") server.listen_port) origin s

    pub HasPeerRules-after :
        {f : S → S} (out : Text)
        → Careful f
        → (origin s : S) → HasPeerRules out origin s
        → HasPeerRules out origin (f s)
    HasPeerRules-after out f o s h = record {
      masqueraded = after f _ o s h.masqueraded;
      incoming = after f _ o s h.incoming;
      outgoing = after f _ o s h.outgoing;
      listening = after f _ o s h.listening;
    }

    abbrev pub outward : S → Text
    outward s = outbound (detect_default_interface (host.default_route (host.forward s)))

  module _ (config : AppConfig) where
    tcp : ℕ → Rule
    tcp port = input_accept (codes "tcp") port

    -- The rules for the ports of the proxies and of the endpoint.
    pub record HasPortRules (origin s : S) : Type 0 where
      pub socks5 : There (input_accept (codes "tcp") config.socks5_port) origin s
      pub http_proxy : There (input_accept (codes "tcp") config.http_proxy_port) origin s
      pub endpoint : There (input_accept (codes "tcp") config.server_port) origin s
