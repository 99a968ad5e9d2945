-- ===== src/Wireguard/PeerManager/Registration.antt =====
-- What a registration, and the freeing that undoes it, make of the leases; and what the server leaves
-- alone.
use tpn_worker.Base.{
  ℕ, suc, ◌-◌, ◌≤◌, ℤ, Bool, false, ◌||◌, Text, List, Option, none, some, ◌≡◌, ◌⊎◌, refl, arith,
  is_empty,
}
use tpn_worker.Error.{internal, bad_key}
use tpn_worker.World.{World, Env, WgRow, PeerState, pure}
use tpn_worker.World.Triple.{
  Triple, Triple-bind, Triple-pure, Triple-call, Triple-kernel_call, Triple-now, Triple-raise,
  Triple-then, Triple-fetch, Triple-execute, Triple-ignore, Triple-if, Triple-draw,
  Triple-execute_works,
}
use tpn_worker.Locks.{Triple-with_lock}
use tpn_worker.Db.Wireguard.Ids.{
  Ordered, lease_of, first_free-some, lease_of-insert_row, insert_row-Ordered, lease_of_deleted,
  lease_of-delete_lease, delete-Ordered, is_lease,
}
use tpn_worker.Db.Wireguard.{
  WgLease, count_up, ids, first_free, upsert_lease, has_lapsed, try_allocate,
  cleanup_expired_wireguard_configs, report_exhausted, register_wireguard_lease,
  mark_config_as_free,
}
use tpn_worker.Wireguard.Server.{
  Keys, Server, require, take_peer, add_peer_to_interface, add_peer, unlink, remove_peer,
}

-- The server's operations do not touch the table of leases.
module _ (env : Env) (keys : Keys) (server : Server) (P : List WgRow → Type 0) where
  abbrev Kept : World → Type 0
  Kept w = P w.leases

  require-Kept : (b : Bool) → Triple Kept (require env keys server b) (λ _. Kept) (λ _. Kept)
  unfolding require
  require-Kept b =
      Triple-if b (λ _. Triple-pure tt (λ w h. h)) (λ _. Triple-raise (internal bad_key) (λ w h. h))

  interface-Kept :
      (k psk a : Text)
      → Triple Kept (add_peer_to_interface env keys server k psk a) (λ _. Kept) (λ _. Kept)
  unfolding add_peer_to_interface
  interface-Kept k psk a = Triple-then Kept (require-Kept (keys.is_key k)) (
      Triple-then Kept (require-Kept (is_empty psk || keys.is_key psk)) (
        Triple-then Kept (require-Kept (keys.is_mask a))
          (Triple-kernel_call env _ _ (λ w h. h) (λ w h. h))))

  pub add_peer-Kept : (i : ℕ) → Triple Kept (add_peer env keys server i) (λ _. Kept) (λ _. Kept)
  unfolding add_peer pure
  add_peer-Kept i =
      Triple-bind (λ _. Kept) (Triple-draw env (λ w h. h))
        λ k.
          Triple-bind (λ _. Kept) (Triple-draw env (λ w h. h))
            λ p. Triple-then Kept (interface-Kept _ _ _) (record { at = λ w h. h })

  unlink-Kept :
      (found : Option PeerState)
      → Triple Kept (unlink env keys server found) (λ _. Kept) (λ _. Kept)
  unfolding unlink
  unlink-Kept none = Triple-pure tt (λ w h. h)
  unlink-Kept (some s) =
      Triple-then Kept (require-Kept (keys.is_key s.public_key))
        (Triple-kernel_call env _ _ (λ w h. h) (λ w h. h))

  pub remove_peer-Kept :
      (i : ℕ) → Triple Kept (remove_peer env keys server i) (λ _. Kept) (λ _. Kept)
  unfolding remove_peer take_peer pure
  remove_peer-Kept i = Triple-bind (λ _. Kept) (record { at = λ w h. h }) unlink-Kept

module _ (env : Env) (lo hi : ℕ) (range : lo ≤ hi) (expires : ℤ) (t : List WgRow) where
  -- Every lease is one of `t`.
  abbrev pub NoNew : List WgRow → Type 0
  NoNew u = Ordered lo hi u × ((j : ℕ) (e : ℤ) → lease_of j u ≡ some e → lease_of j t ≡ some e)

  -- `i` is leased, and every other lease is one of `t`.
  abbrev pub OneNew : ℕ → List WgRow → Type 0
  OneNew i u =
      Ordered lo hi u
      × (lease_of i u ≡ some expires)
      × ((j : ℕ) (e : ℤ) → lease_of j u ≡ some e → (i ≡ j) ⊎ (lease_of j t ≡ some e))

  abbrev Old : World → Type 0
  Old w = NoNew w.leases

  abbrev Tried : Option WgLease → World → Type 0
  Tried none w = NoNew w.leases
  Tried (some l) w = OneNew l.peer_id w.leases

  insert-OneNew :
      (i : ℕ) (u : List WgRow)
      → NoNew u
      → first_free (ids lo hi) u ≡ some i
      → OneNew i (upsert_lease i expires u)
  unfolding upsert_lease ids
  insert-OneNew i u h found =
      let (ge, lt, free) = first_free-some (suc (hi - lo)) lo u (unfold count_up in found) in
      let row : WgRow = record { id = i; expires_at = expires; keys = none } in
      rw free (
        insert_row-Ordered row lo hi u ge (omega arith) free h.0,
        ground (arith, lease_of-insert_row row i u free),
        λ j e there. ground (arith, lease_of-insert_row row j u free, h.1 j e),
      )

  try_allocate-Tried : Triple Old (try_allocate env lo hi expires) Tried (λ _. Old)
  unfolding try_allocate
  try_allocate-Tried =
      Triple-bind (λ found w. NoNew w.leases × (first_free (ids lo hi) w.leases ≡ found))
        (Triple-fetch env _ (λ w h. (h, refl)) (λ w h. h))
        (elim [
          | none ↦ Triple-pure none (λ w h. h.0)
          | some i ↦
              Triple-then (λ w. OneNew i w.leases)
                (Triple-execute env _ (λ w h. insert-OneNew i w.leases h.0 h.1) (λ w h. h.0))
                (Triple-pure _ (λ w h. h))
        ])

  cleanup-Old : Triple Old (cleanup_expired_wireguard_configs env) (λ _. Old) (λ _. Old)
  unfolding cleanup_expired_wireguard_configs
  cleanup-Old =
      Triple-bind (λ _. Old) (Triple-now env (λ w h. h))
        λ now.
          Triple-call env _ _
            (λ w h. (
              delete-Ordered (has_lapsed now) lo hi w.leases h.0,
              λ j e there. h.1 j e (lease_of_deleted (has_lapsed now) j lo hi w.leases h.0 there),
            ))
            (λ w h. h)

  report-Old : Triple Old (report_exhausted env) (λ l w. OneNew l.peer_id w.leases) (λ _. Old)
  unfolding report_exhausted
  report-Old =
      Triple-then Old (Triple-ignore (Triple-fetch env _ (λ w h. h) (λ w h. h)))
        (Triple-raise _ (λ w h. h))

  pub register-OneNew :
      Triple Old
        (register_wireguard_lease env lo hi expires)
        (λ l w. OneNew l.peer_id w.leases)
        (λ _. Old)
  unfolding register_wireguard_lease
  register-OneNew =
      Triple-with_lock env (λ w h. h) (λ w h. h)
        (Triple-bind Tried try_allocate-Tried (elim [
          | some l ↦ Triple-pure l (λ w h. h)
          | none ↦ Triple-then Old cleanup-Old (
              Triple-bind Tried try_allocate-Tried
                (elim [ some l ↦ Triple-pure l (λ w h. h) | none ↦ report-Old ]))
        ]))

  -- Freeing the new lease undoes the registration.
  pub free-NoNew :
      (i : ℕ)
      → ((k : ℕ) → env.fails k ≡ false)
      → Triple
          (λ w. OneNew i w.leases)
          (mark_config_as_free env i (some expires))
          (λ _. Old)
          (λ _. Old)
  unfolding mark_config_as_free
  free-NoNew i works = Triple-execute_works env _ works λ w h. (
    delete-Ordered (is_lease i expires) lo hi w.leases h.0,
    λ j e there. ground (arith, lease_of-delete_lease i j lo hi expires w.leases h.0 h.1, h.2 j e),
  )
