-- ===== src/Wireguard/Server.antt =====
-- wireguard/server.rs and wireguard/keygen.rs: the peers of the embedded server, in memory and on
-- the kernel's interface. The interface is what `configure_peer` and `remove_peer` of the WireGuard
-- API make of it: a set of peers by key. Keys are made and read by third-party code.
pub mod Addresses
pub mod Lookup
pub mod Restart
use tpn_worker.Base.{
  ℕ, ◌+◌, ◌%◌, ◌^◌, ltb_ℤ, ℤ, Bool, true, false, ◌&&◌, ◌||◌, ◌==◌, Text, eq_text, codes, List, [],
  ◌∷◌, ◌++◌, Option, none, some, length, is_empty, show_nat, if◌then◌else◌,
}
use tpn_worker.Error.{ok, err, internal, bad_key, interface_failed, peer_not_found}
use tpn_worker.World.{
  World, Env, WgRow, PeerKeys, PeerState, KernelPeer, M, ◌>>=◌, ◌>>◌, pure, raise, ignore, catch,
  now_ms, fetch, kernel_call, draw,
}
use tpn_worker.Net.Ip.{Ipv4, show_ipv4, parse_ipv4}
use tpn_worker.Db.Table.{where_rows}

-- The key functions of x25519, base64 and the WireGuard library. A private key, its public key and
-- a preshared key come from a draw.
pub record Keys : Type 0 where
  pub private_key : ℕ → Text
  pub preshared_key : ℕ → Text
  pub public_key_from_private : Text → Option Text
  pub public_key : ℕ → Text
  pub is_key : Text → Bool
  pub is_mask : Text → Bool

-- The fixed part of a `WireGuardServer`.
pub record Server : Type 0 where
  pub server_public_key : Text
  pub listen_port : ℕ
  pub subnet_base : Ipv4
  pub endpoint_host : Text
  pub dns : Text

pub record PeerConfig : Type 0 where
  pub peer_id : ℕ
  pub client_private_key : Text
  pub client_address : Text
  pub server_public_key : Text
  pub preshared_key : Text
  pub endpoint : Text
  pub dns : Text

-- The peers in memory: a map from ids.
abbrev pub Peers : Type 0
Peers = List (ℕ × PeerState)

unfoldable pub get_peer : ℕ → Peers → Option PeerState
get_peer i [] = none
get_peer i ((j, s) ∷ ps) = if j == i then some s else get_peer i ps

unfoldable pub drop_peer : ℕ → Peers → Peers
drop_peer i [] = []
drop_peer i ((j, s) ∷ ps) = let rest = drop_peer i ps in if j == i then rest else (j, s) ∷ rest

unfoldable pub put_peer : ℕ → PeerState → Peers → Peers
unfolding drop_peer
put_peer i s ps = (i, s) ∷ drop_peer i ps

-- The interface without a key.
unfoldable pub drop_key : Text → List KernelPeer → List KernelPeer
drop_key k [] = []
drop_key k (p ∷ ps) = let rest = drop_key k ps in if eq_text p.key k then rest else p ∷ rest

-- `octets[3] + 1` on `u8`, which wraps in a release build.
unfoldable pub server_address : Server → Ipv4
server_address s = record s.subnet_base { o3 = (s.subnet_base.o3 + 1) % 2 ^ 8 }

-- On `u16`, then `as u8`.
unfoldable pub peer_ip : Server → ℕ → Ipv4
peer_ip s i = record s.subnet_base { o3 = ((s.subnet_base.o3 + i + 1) % 2 ^ 16) % 2 ^ 8 }

abbrev endpoint_of : Server → Text
endpoint_of s = s.endpoint_host ++ (b':' ∷ show_nat s.listen_port)

-- `PeerConfig::to_text`
unfoldable pub to_text : PeerConfig → Text
to_text c =
    codes "[Interface]\nAddress = "
    ++ (c.client_address
        ++ (codes "\nPrivateKey = "
            ++ (c.client_private_key
                ++ (codes "\nListenPort = 51820\nDNS = "
                    ++ (c.dns
                        ++ (codes "\n\n[Peer]\nPublicKey = "
                            ++ (c.server_public_key
                                ++ (codes "\nPresharedKey = "
                                    ++ (c.preshared_key
                                        ++ (codes "\nAllowedIPs = 0.0.0.0/0, ::/0\nEndpoint = "
                                            ++ c.endpoint))))))))))

module _ (env : Env) (keys : Keys) (server : Server) where
  open server use {server_public_key, dns}

  unfoldable pub require : Bool → M (Unit {0})
  require b = if b then pure tt else raise (internal bad_key)

  unfoldable pub add_peer_to_interface : Text → Text → Text → M (Unit {0})
  add_peer_to_interface public_key psk allowed_ip = do
    require (keys.is_key public_key)
    require (is_empty psk || keys.is_key psk)
    require (keys.is_mask allowed_ip)
    kernel_call env (internal interface_failed) λ w. (
      tt,
      record w {
        interface =
            record { key = public_key; address = allowed_ip } ∷ drop_key public_key w.interface;
      },
    )

  unfoldable pub add_peer : ℕ → M PeerConfig
  add_peer i = do
    k ← draw env
    p ← draw env
    let private = keys.private_key k
    let public = keys.public_key k
    let psk = keys.preshared_key p
    let allowed_ip = peer_ip server i
    add_peer_to_interface public psk (show_ipv4 allowed_ip ++ codes "/32")
    λ w.
        pure
          (record {
            peer_id = i;
            client_private_key = private;
            client_address = show_ipv4 allowed_ip;
            server_public_key = server_public_key;
            preshared_key = psk;
            endpoint = endpoint_of server;
            dns = dns;
          })
          (record w {
            peers =
                put_peer i
                  (record {
                    peer_id = i;
                    private_key = private;
                    public_key = public;
                    preshared_key = psk;
                    allowed_ip = allowed_ip;
                  })
                  w.peers;
          })

  -- `self.peers.write().await.remove(&peer_id)`
  unfoldable pub take_peer : ℕ → M (Option PeerState)
  take_peer i w = pure (get_peer i w.peers) (record w { peers = drop_peer i w.peers })

  -- The peer that was in memory is taken off the interface.
  unfoldable pub unlink : Option PeerState → M (Unit {0})
  unlink none = pure tt
  unlink (some s) = do
    require (keys.is_key s.public_key)
    kernel_call env (internal interface_failed)
        (λ w. (tt, record w { interface = drop_key s.public_key w.interface }))

  unfoldable pub remove_peer : ℕ → M (Unit {0})
  remove_peer i = do state ← take_peer i; unlink state

  unfoldable pub rotate_peer_keys : ℕ → M PeerConfig
  rotate_peer_keys i = do ignore (remove_peer i); add_peer i

  unfoldable pub get_client_config : ℕ → M PeerConfig
  get_client_config i w = elim (get_peer i w.peers) [
    | none ↦ raise (internal peer_not_found) w
    | some s ↦
        pure
          (record {
            peer_id = i;
            client_private_key = s.private_key;
            client_address = show_ipv4 s.allowed_ip;
            server_public_key = server_public_key;
            preshared_key = s.preshared_key;
            endpoint = endpoint_of server;
            dns = dns;
          })
          w
  ]

  unfoldable pub active_peer_count : World → ℕ
  active_peer_count w = length w.peers

  or_address : Option Ipv4 → ℕ → Ipv4
  or_address none i = peer_ip server i
  or_address (some a) i = a

  unfoldable pub restored_state : ℕ → PeerKeys → PeerState
  unfolding or_address
  restored_state i k = record {
    peer_id = i;
    private_key = k.private_key;
    public_key = k.public_key;
    preshared_key = k.preshared_key;
    allowed_ip = or_address (parse_ipv4 k.allowed_ip) i;
  }

  -- A row of the restart: its peer goes onto the interface and into memory, or is skipped. The
  -- answer says which.
  unfoldable pub restore_row : ℕ → Option PeerKeys → M Bool
  restore_row i none = pure false
  restore_row i (some k) =
      catch
        (do
          add_peer_to_interface k.public_key k.preshared_key k.allowed_ip
          λ w. pure true (record w { peers = put_peer i (restored_state i k) w.peers }))
        (λ e. pure false)

  unfoldable pub restore_rows : List WgRow → ℕ → M ℕ
  restore_rows [] count = pure count
  restore_rows (r ∷ rs) count = do
    restored ← restore_row (r.id % 2 ^ 16) r.keys
    restore_rows rs (if restored then count + 1 else count)

  unfoldable pub is_restorable : ℤ → WgRow → Bool
  is_restorable now r = ltb_ℤ now r.expires_at && elim r.keys [ none ↦ false | some k ↦ true ]

  unfoldable pub restore_peers : M ℕ
  restore_peers = do
    now ← now_ms env
    rows ← fetch env (λ w. where_rows (is_restorable now) w.leases)
    restore_rows rows 0

  unfoldable pub shutdown : M (Unit {0})
  shutdown = kernel_call env (internal interface_failed) (λ w. (tt, record w { interface = [] }))
