-- ===== src/Wireguard/PeerManager.antt =====
-- wireguard/peer_manager.rs: a peer is a row of the table and a peer of the server.
pub mod Registration
pub mod Rollback
pub mod Frame
use tpn_worker.Base.{ℕ, ◌%◌, ◌^◌, ℤ, Text, Option, none, some}
use tpn_worker.Error.{internal, bad_key, keys_not_persisted}
use tpn_worker.World.{
  World, Env, WgRow, PeerKeys, M, ◌>>=◌, ◌>>◌, pure, raise, ignore, catch, ok_or, execute,
}
use tpn_worker.Db.Table.{update_rows}
use tpn_worker.Db.Wireguard.{WgLease, has_id, register_wireguard_lease, mark_config_as_free}
use tpn_worker.Wireguard.Server.{Keys, Server, PeerConfig, add_peer, remove_peer}

pub record PeerAllocation : Type 0 where
  pub peer_config : PeerConfig
  pub peer_id : ℕ
  pub expires_at : ℤ

abbrev pub set_keys : Text → Text → Text → Text → WgRow → WgRow
set_keys private public psk allowed_ip r = record r {
  keys = some (record {
    private_key = private;
    public_key = public;
    preshared_key = psk;
    allowed_ip = allowed_ip;
  });
}

module _ (env : Env) (keys : Keys) (server : Server) where
  unfoldable pub store_peer_keys : ℕ → Text → Text → Text → M (Unit {0})
  store_peer_keys i private psk allowed_ip = do
    public ← ok_or (keys.public_key_from_private private) (internal bad_key)
    execute env λ w. record w {
      leases = update_rows (has_id i) (set_keys private public psk allowed_ip) w.leases;
    }

  unfoldable pub add_or_free : ℕ → ℤ → M PeerConfig
  add_or_free i expires =
      catch (add_peer env keys server (i % 2 ^ 16))
        λ e. do ignore (mark_config_as_free env i (some expires)); raise e

  unfoldable pub store_or_remove : ℕ → ℤ → PeerConfig → M (Unit {0})
  store_or_remove i expires c =
      catch (store_peer_keys i c.client_private_key c.preshared_key c.client_address) λ e. do
        ignore (remove_peer env keys server (i % 2 ^ 16))
        ignore (mark_config_as_free env i (some expires))
        raise (internal keys_not_persisted)

  unfoldable pub allocate_peer : ℕ → ℕ → ℤ → M PeerAllocation
  allocate_peer start_id end_id expires = do
    l ← register_wireguard_lease env start_id end_id expires
    c ← add_or_free l.peer_id expires
    store_or_remove l.peer_id expires c
    pure (record { peer_config = c; peer_id = l.peer_id; expires_at = expires })

  unfoldable pub release_peer : ℕ → M (Unit {0})
  release_peer i = do remove_peer env keys server i; mark_config_as_free env i none
