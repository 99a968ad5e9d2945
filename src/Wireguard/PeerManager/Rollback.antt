-- ===== src/Wireguard/PeerManager/Rollback.antt =====
-- A peer allocation that fails leaves no lease behind.
use tpn_worker.Base.{ℕ, ◌≤◌, ◌%◌, ◌^◌, ℤ, false, Text, List, some, ◌≡◌, ◌⊎◌, refl}
use tpn_worker.Error.{AppError, ok, err, internal, bad_key, keys_not_persisted}
use tpn_worker.World.{World, Env, WgRow}
use tpn_worker.World.Triple.{
  Triple, Triple-bind, Triple-pure, Triple-raise, Triple-then, Triple-execute, Triple-ignore,
  Triple-catch, Triple-ok_or, Triple-answer, Triple-error,
}
use tpn_worker.Db.Wireguard.Ids.{Ordered, lease_of, update-Ordered, lease_of-update}
use tpn_worker.Db.Wireguard.{has_id}
use tpn_worker.Wireguard.Server.{Keys, Server, PeerConfig}
use tpn_worker.Wireguard.PeerManager.{
  PeerAllocation, set_keys, store_peer_keys, add_or_free, store_or_remove, allocate_peer,
}
use tpn_worker.Wireguard.PeerManager.Registration.{
  NoNew, OneNew, add_peer-Kept, remove_peer-Kept, register-OneNew, free-NoNew,
}

module _ (env : Env) (keys : Keys) (server : Server) (lo hi : ℕ) (range : lo ≤ hi) (expires : ℤ)
    (t : List WgRow) (works : (k : ℕ) → env.fails k ≡ false) where
  abbrev One : ℕ → World → Type 0
  One i w = OneNew env lo hi range expires t i w.leases

  abbrev None : World → Type 0
  None w = NoNew env lo hi range expires t w.leases

  add_or_free-OneNew :
      (i : ℕ) → Triple (One i) (add_or_free env keys server i expires) (λ _. One i) (λ _. None)
  unfolding add_or_free
  add_or_free-OneNew i =
      Triple-catch (λ _. One i)
        (add_peer-Kept env keys server (OneNew env lo hi range expires t i) (i % 2 ^ 16))
        λ e.
          Triple-then None (Triple-ignore (free-NoNew env lo hi range expires t i works))
            (Triple-raise e (λ w h. h))

  store-OneNew :
      (i : ℕ) (private psk a : Text)
      → Triple (One i) (store_peer_keys env keys server i private psk a) (λ _. One i) (λ _. One i)
  unfolding store_peer_keys
  store-OneNew i private psk a =
      Triple-bind (λ _. One i)
        (Triple-ok_or (keys.public_key_from_private private) (internal bad_key) (λ k w e h. h)
          (λ w e h. h))
        λ public.
          Triple-execute env _
            (λ w h. (
              update-Ordered (has_id i) (set_keys private public psk a) lo hi w.leases (λ r. refl)
                  h.0,
              rw
                  (lease_of-update (has_id i) (set_keys private public psk a) i w.leases (λ r. refl)
                    (λ r. refl))
                  h.1,
              λ j e there. h.2 j e (
                  rw
                    (lease_of-update (has_id i) (set_keys private public psk a) j w.leases
                      (λ r. refl) (λ r. refl))
                    at there),
            ))
            (λ w h. h)

  store_or_remove-OneNew :
      (i : ℕ) (c : PeerConfig)
      → Triple (One i) (store_or_remove env keys server i expires c) (λ _. One i) (λ _. None)
  unfolding store_or_remove
  store_or_remove-OneNew i c =
      Triple-catch (λ _. One i) (store-OneNew i _ _ _)
        λ e.
          Triple-then (One i)
            (Triple-ignore
              (remove_peer-Kept env keys server (OneNew env lo hi range expires t i) (i % 2 ^ 16)))
            (Triple-then None (Triple-ignore (free-NoNew env lo hi range expires t i works))
              (Triple-raise (internal keys_not_persisted) (λ w h. h)))

  allocate-OneNew :
      Triple None (allocate_peer env keys server lo hi expires) (λ a. One a.peer_id) (λ _. None)
  unfolding allocate_peer
  allocate-OneNew =
      Triple-bind (λ l w. OneNew env lo hi range expires t l.peer_id w.leases)
        (register-OneNew env lo hi range expires t)
        λ l.
          Triple-bind (λ _. One l.peer_id) (add_or_free-OneNew l.peer_id)
            λ c.
              Triple-then (One l.peer_id) (store_or_remove-OneNew l.peer_id c)
                (Triple-pure _ (λ w h. h))

-- Where no statement fails, and the ids of the table ascend from `lo` and do not pass `hi`, an
-- allocation that fails, whether for want of a slot or at the keys or the kernel's interface, leaves
-- only leases that there were before, each with its expiry.
pub allocate_peer_rollback :
    (env : Env) (keys : Keys) (server : Server) (lo hi : ℕ) (expires : ℤ) (w : World) (x : AppError)
    → lo ≤ hi
    → ((k : ℕ) → env.fails k ≡ false)
    → Ordered lo hi w.leases
    → (allocate_peer env keys server lo hi expires w).0 ≡ err x
    → (j : ℕ) (e : ℤ) → lease_of j (allocate_peer env keys server lo hi expires w).1.leases ≡ some e
    → lease_of j w.leases ≡ some e
allocate_peer_rollback env keys server lo hi expires w x range works o failed =
    (Triple-error (allocate-OneNew env keys server lo hi range expires w.leases works) w
      (o, λ j e h. h) failed).1

-- Where no statement fails, and the ids of the table ascend from `lo` and do not pass `hi`, so that
-- they are distinct and in the server's range, an allocation that succeeds leaves its peer leased
-- until the expiry asked for, and otherwise only leases that there were before, each with its
-- expiry; and the ids of the table still ascend so.
pub allocate_peer_one_new :
    (env : Env) (keys : Keys) (server : Server) (lo hi : ℕ) (expires : ℤ) (w : World)
    (a : PeerAllocation)
    → lo ≤ hi
    → ((k : ℕ) → env.fails k ≡ false)
    → Ordered lo hi w.leases
    → (allocate_peer env keys server lo hi expires w).0 ≡ ok a
    → let u = (allocate_peer env keys server lo hi expires w).1.leases in
      Ordered lo hi u
      × (lease_of a.peer_id u ≡ some expires)
      × ((j : ℕ) (e : ℤ) → lease_of j u ≡ some e → (a.peer_id ≡ j) ⊎ (lease_of j w.leases ≡ some e))
allocate_peer_one_new env keys server lo hi expires w a range works o answer =
    Triple-answer (allocate-OneNew env keys server lo hi range expires w.leases works) w
      (o, λ j e h. h) answer
