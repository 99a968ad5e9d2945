-- ===== src/Wireguard/PeerManager/Frame.antt =====
-- The allocation of a peer changes the WireGuard table, the peers in memory and the interface alone.
use tpn_worker.Base.{ℕ, ℤ, Bool, refl, Text, Option, none, some, Option-cases, inl, inr}
use tpn_worker.Error.{internal, bad_key, interface_failed, keys_not_persisted, status}
use tpn_worker.World.{World, Env, PeerState, pure, raise, kernel_call}
use tpn_worker.World.Triple.{
  Triple-bind, Triple-then, Triple-pure, Triple-raise, Triple-kernel_call, Triple-draw,
  Triple-execute, Triple-if, Triple-ok_or, Triple-catch,
}
use tpn_worker.World.Frame.{Frame, Framed, Frame-and, OfServer, ignored, kept}
use tpn_worker.Db.Wireguard.Frame.{register-Framed, free-Framed}
use tpn_worker.Wireguard.Server.{
  Keys, Server, require, add_peer_to_interface, add_peer, take_peer, unlink, remove_peer,
  get_client_config, get_peer,
}
use tpn_worker.Wireguard.PeerManager.{store_peer_keys, add_or_free, store_or_remove, allocate_peer}

module _ (env : Env) (keys : Keys) (server : Server) (P : World → Type 0) (f : Frame P) where
  open f.below use {bumped}

  require-Framed : (b : Bool) → Framed P (require env keys server b)
  unfolding require status
  require-Framed b =
      Triple-if b (λ _. Triple-pure tt (λ w h. h))
        (λ _. Triple-raise (internal bad_key) (λ w h. (refl, h)))

  kernel-Framed :
      (k : World → Unit {0} × World)
      → ((w : World) → P w → P (k w).1)
      → Framed P (kernel_call env (internal interface_failed) k)
  unfolding status
  kernel-Framed k keep =
      Triple-kernel_call env _ _ (λ w h. bumped _ (keep w h)) (λ w h. (refl, bumped w h))

  pub add_peer-Framed : (i : ℕ) → Framed P (add_peer env keys server i)
  unfolding add_peer add_peer_to_interface pure
  add_peer-Framed i =
      Triple-bind (λ _. P) (Triple-draw env bumped)
        λ k.
          Triple-bind (λ _. P) (Triple-draw env bumped)
            λ p.
              Triple-then P
                (Triple-then P (require-Framed _) (
                  Triple-then P (require-Framed _) (
                    Triple-then P (require-Framed _) (kernel-Framed _ (λ w h. f.interface w _ h)))))
                (record { at = λ w h. f.peers w _ h })

  unlink-Framed : (found : Option PeerState) → Framed P (unlink env keys server found)
  unfolding unlink
  unlink-Framed none = Triple-pure tt (λ w h. h)
  unlink-Framed (some s) =
      Triple-then P (require-Framed _) (kernel-Framed _ (λ w h. f.interface w _ h))

  remove_peer-Framed : (i : ℕ) → Framed P (remove_peer env keys server i)
  unfolding remove_peer take_peer pure
  remove_peer-Framed i = Triple-bind (λ _. P) (record { at = λ w h. f.peers w _ h }) unlink-Framed

  store-Framed :
      (i : ℕ) (private psk a : Text) → Framed P (store_peer_keys env keys server i private psk a)
  unfolding store_peer_keys status
  store-Framed i private psk a =
      Triple-bind (λ _. P)
        (Triple-ok_or (keys.public_key_from_private private) _ (λ k w e h. h) (λ w e h. (refl, h)))
        (λ public.
          Triple-execute env _ (λ w h. bumped _ (f.leases w _ h)) (λ w h. (refl, bumped w h)))

  pub allocate-Framed : (lo hi : ℕ) (e : ℤ) → Framed P (allocate_peer env keys server lo hi e)
  unfolding allocate_peer add_or_free store_or_remove status
  allocate-Framed lo hi e =
      Triple-bind (λ _. P) (register-Framed env P f lo hi e)
        λ l.
          Triple-bind (λ _. P)
            (Triple-catch (OfServer P) (add_peer-Framed _) λ x.
              Triple-then (OfServer P x)
                (ignored (free-Framed env (OfServer P x) (Frame-and _ P f) _ _))
                (Triple-raise x (λ w h. h)))
            λ c.
              Triple-then P
                (Triple-catch (λ _. P) (kept (store-Framed _ _ _ _))
                  λ x. Triple-then P (ignored (remove_peer-Framed _)) (
                    Triple-then P (ignored (free-Framed env P f _ _))
                      (Triple-raise (internal keys_not_persisted) (λ w h. (refl, h)))))
                (Triple-pure _ (λ w h. h))

  pub client_config-Framed : (i : ℕ) → Framed P (get_client_config env keys server i)
  unfolding get_client_config pure raise status
  client_config-Framed i = record {
    at = λ w h. elim (Option-cases (get_peer i w.peers)) [
      | inl missing ↦ rw (missing, get_client_config) (refl, h)
      | inr found ↦ rw (found.1, get_client_config) h
    ];
  }
