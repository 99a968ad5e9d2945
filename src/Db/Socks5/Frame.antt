-- ===== src/Db/Socks5/Frame.antt =====
-- The operations on the SOCKS5 table change it alone.
use tpn_worker.Base.{ℤ, Bool, ◌==◌, refl, Text, none, some}
use tpn_worker.Error.{lease_unavailable, not_extendable, status}
use tpn_worker.World.{World, Env}
use tpn_worker.World.Triple.{
  Triple-bind, Triple-then, Triple-pure, Triple-raise, Triple-call, Triple-now, Triple-draw,
  Triple-fetch, Triple-execute, Triple-if, Triple-ok_or,
}
use tpn_worker.World.Frame.{SocksFrame, Framed}
use tpn_worker.Locks.{Triple-with_lock}
use tpn_worker.Db.Socks5.{
  choose, get_socks5_config_priority, cleanup_expired_socks5_configs, find_free,
  get_socks5_config_non_priority, get_socks5_config, extend_socks5_lease,
  read_socks5_config_by_username, count_available_socks,
}

module _ (env : Env) (P : World → Type 0) (f : SocksFrame P) where
  pub cleanup-Framed : Framed P (cleanup_expired_socks5_configs env)
  unfolding cleanup_expired_socks5_configs status
  cleanup-Framed =
      Triple-bind (λ _. P) (Triple-now env f.bumped)
        (λ now.
          Triple-call env _ _ (λ w h. f.bumped _ (f.socks w _ h)) (λ w h. (refl, f.bumped w h)))

  find_free-Framed : (slots : ℤ) → Framed P (find_free env slots)
  unfolding find_free status
  find_free-Framed slots =
      Triple-bind (λ _. P) (Triple-fetch env _ f.bumped (λ w h. (refl, f.bumped w h)))
        (elim [
          | some c ↦ Triple-pure c (λ w h. h)
          | none ↦ Triple-then P cleanup-Framed (
              Triple-bind (λ _. P) (Triple-fetch env _ f.bumped (λ w h. (refl, f.bumped w h)))
                (λ retried. Triple-ok_or retried _ (λ c w e h. h) (λ w e h. (refl, h))))
        ])

  pub get_socks5_config-Framed :
      (expires : ℤ) (priority : Bool) (slots : ℤ)
      → Framed P (get_socks5_config env expires priority slots)
  unfolding get_socks5_config get_socks5_config_priority get_socks5_config_non_priority choose
      status
  get_socks5_config-Framed expires priority slots =
      Triple-if priority
        (λ _.
          Triple-bind (λ _. P) (Triple-fetch env _ f.bumped (λ w h. (refl, f.bumped w h)))
            λ configs.
              Triple-bind (λ _. P)
                (Triple-bind (λ _. P) (Triple-draw env f.bumped)
                  (λ n. Triple-ok_or _ _ (λ c w e h. h) (λ w e h. (refl, h))))
                λ c.
                  Triple-bind (λ _. P) (Triple-now env f.bumped)
                    λ now.
                      Triple-then P
                        (Triple-execute env _ (λ w h. f.bumped _ (f.socks w _ h))
                          (λ w h. (refl, f.bumped w h)))
                        (Triple-pure c (λ w h. h)))
        (λ _.
          Triple-with_lock env f.bumped (λ w h. (refl, f.bumped w h))
            (Triple-bind (λ _. P) (find_free-Framed slots)
              λ c.
                Triple-bind (λ _. P) (Triple-now env f.bumped)
                  λ now.
                    Triple-then P
                      (Triple-execute env _ (λ w h. f.bumped _ (f.socks w _ h))
                        (λ w h. (refl, f.bumped w h)))
                      (Triple-pure c (λ w h. h))))

  pub count_available-Framed : (slots : ℤ) → Framed P (count_available_socks env slots)
  unfolding count_available_socks status
  count_available-Framed slots = Triple-fetch env _ f.bumped (λ w h. (refl, f.bumped w h))

  pub extend_socks5-Framed :
      (u : Text) (expected new : ℤ) → Framed P (extend_socks5_lease env u expected new)
  unfolding extend_socks5_lease status
  extend_socks5-Framed u expected new =
      Triple-bind (λ _. P) (Triple-now env f.bumped)
        λ now.
          Triple-bind (λ _. P)
            (Triple-call env _ _ (λ w h. f.bumped _ (f.socks w _ h)) (λ w h. (refl, f.bumped w h)))
            λ n.
              Triple-if (n == 0)
                (λ _. Triple-raise (lease_unavailable not_extendable) (λ w h. (refl, h)))
                (λ _. Triple-pure new (λ w h. h))

  pub read_socks-Framed : (u : Text) → Framed P (read_socks5_config_by_username env u)
  unfolding read_socks5_config_by_username status
  read_socks-Framed u = Triple-fetch env _ f.bumped (λ w h. (refl, f.bumped w h))
