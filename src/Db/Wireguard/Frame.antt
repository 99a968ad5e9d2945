-- ===== src/Db/Wireguard/Frame.antt =====
-- The operations on the WireGuard table change it alone.
use tpn_worker.Base.{ℕ, ℤ, ◌==◌, refl, none, some}
use tpn_worker.Error.{lease_unavailable, not_extendable, status}
use tpn_worker.World.{World, Env}
use tpn_worker.World.Triple.{
  Triple-bind, Triple-then, Triple-pure, Triple-raise, Triple-call, Triple-now, Triple-fetch,
  Triple-execute, Triple-if, Triple-ignore,
}
use tpn_worker.World.Frame.{Frame, Framed}
use tpn_worker.Locks.{Triple-with_lock}
use tpn_worker.Db.Wireguard.{
  try_allocate, cleanup_expired_wireguard_configs, report_exhausted, register_wireguard_lease,
  extend_wireguard_lease, mark_config_as_free,
}

module _ (env : Env) (P : World → Type 0) (f : Frame P) where
  open f.below use {bumped}

  pub extend_wireguard-Framed :
      (i expected new : ℤ) → Framed P (extend_wireguard_lease env i expected new)
  unfolding extend_wireguard_lease status
  extend_wireguard-Framed i expected new =
      Triple-bind (λ _. P) (Triple-now env bumped)
        λ now.
          Triple-bind (λ _. P)
            (Triple-call env _ _ (λ w h. bumped _ (f.leases w _ h)) (λ w h. (refl, bumped w h)))
            λ n.
              Triple-if (n == 0)
                (λ _. Triple-raise (lease_unavailable not_extendable) (λ w h. (refl, h)))
                (λ _. Triple-pure new (λ w h. h))

  try_allocate-Framed : (lo hi : ℕ) (e : ℤ) → Framed P (try_allocate env lo hi e)
  unfolding try_allocate status
  try_allocate-Framed lo hi e =
      Triple-bind (λ _. P) (Triple-fetch env _ bumped (λ w h. (refl, bumped w h)))
        (elim [
          | none ↦ Triple-pure none (λ w h. h)
          | some i ↦
              Triple-then P
                (Triple-execute env _ (λ w h. bumped _ (f.leases w _ h))
                  (λ w h. (refl, bumped w h)))
                (Triple-pure _ (λ w h. h))
        ])

  report-Framed : Framed P (report_exhausted env)
  unfolding report_exhausted status
  report-Framed =
      Triple-then P (Triple-ignore (Triple-fetch env _ bumped bumped))
        (Triple-raise _ (λ w h. (refl, h)))

  pub register-Framed : (lo hi : ℕ) (e : ℤ) → Framed P (register_wireguard_lease env lo hi e)
  unfolding register_wireguard_lease cleanup_expired_wireguard_configs status
  register-Framed lo hi e =
      Triple-with_lock env bumped (λ w h. (refl, bumped w h))
        (Triple-bind (λ _. P) (try_allocate-Framed lo hi e)
          (elim [
            | some l ↦ Triple-pure l (λ w h. h)
            | none ↦
                Triple-then P
                  (Triple-bind (λ _. P) (Triple-now env bumped)
                    λ now.
                      Triple-call env _ _ (λ w h. bumped _ (f.leases w _ h))
                        (λ w h. (refl, bumped w h)))
                  (Triple-bind (λ _. P) (try_allocate-Framed lo hi e)
                    (elim [ some l ↦ Triple-pure l (λ w h. h) | none ↦ report-Framed ]))
          ]))

  pub free-Framed : (i : ℕ) (e : ℤ) → Framed P (mark_config_as_free env i (some e))
  unfolding mark_config_as_free status
  free-Framed i e =
      Triple-execute env _ (λ w h. bumped _ (f.leases w _ h)) (λ w h. (refl, bumped w h))
