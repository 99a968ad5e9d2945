-- ===== src/Db/Socks5/Priority.antt =====
-- The priority pool: the first `slots` rows stay available, whatever is leased.
use tpn_worker.Base.{
  ℤ, pos_part, Bool, true, false, Text, List, [], ◌∷◌, none, some, ◌≡◌, refl, take, ◌==◌, ◌∙◌,
}
use tpn_worker.Error.{ok, lease_unavailable, not_extendable}
use tpn_worker.World.{World, Env, Socks5Config}
use tpn_worker.World.Triple.{
  Triple, Triple-bind, Triple-pure, Triple-call, Triple-ok_or, Triple-now, Triple-draw,
  Triple-raise, Triple-weaken, Triple-then, Triple-fetch, Triple-execute, Triple-if, Triple-state,
  Triple-answer,
}
use tpn_worker.Locks.{Triple-with_lock}
use tpn_worker.Db.Table.{update_rows, any_row, first_row}
use tpn_worker.Db.Socks5.Names.{update-Unique}
use tpn_worker.Db.Socks5.{
  has_username, set_expiry, has_expired, free_row, free_rows, choose, find_free,
  get_socks5_config_priority, get_socks5_config_non_priority, cleanup_expired_socks5_configs,
  matches_lease, get_socks5_config, extend_socks5_lease, Request, lease, extend, cleanup, serve,
  run,
}
use tpn_worker.Db.Socks5.Slots.{update-SlotsFree, Inv, Holds, IsFirstFree, Leased, lease-Leased}

module _ (env : Env) (slots : ℤ) where
  Inv-update :
      (p : Socks5Config → Bool) (f : Socks5Config → Socks5Config) (t : List Socks5Config)
      → ((r : Socks5Config) → r.available ≡ true → (f r).available ≡ true)
      → ((r : Socks5Config) → (f r).username ≡ r.username)
      → Inv slots t
      → Inv slots (update_rows p f t)
  Inv-update p f t keep same v = record {
    unique = update-Unique p f same t v.unique;
    free = update-SlotsFree p f (pos_part slots) t keep v.free;
  }

  choose-Inv :
      (configs : List Socks5Config)
      → Triple (Holds slots) (choose env configs) (λ _. Holds slots) (λ _. Holds slots)
  unfolding choose
  choose-Inv configs =
      Triple-bind (λ _. Holds slots) (Triple-draw env (λ w v. v))
        λ n. Triple-ok_or _ _ (λ a w e v. v) (λ w e v. v)

  priority-Inv :
      (expires : ℤ)
      → Triple
          (Holds slots)
          (get_socks5_config_priority env expires slots)
          (λ _. Holds slots)
          (λ _. Holds slots)
  unfolding get_socks5_config_priority
  priority-Inv expires =
      Triple-bind (λ _. Holds slots) (Triple-fetch env _ (λ w v. v) (λ w v. v))
        λ configs.
          Triple-bind (λ _. Holds slots) (choose-Inv configs)
            λ config.
              Triple-bind (λ _. Holds slots) (Triple-now env (λ w v. v))
                λ now.
                  Triple-then (Holds slots)
                    (Triple-execute env _
                      (λ w v.
                        Inv-update (has_username config.username) (set_expiry expires now) w.socks
                          (λ r h. h) (λ r. refl) v)
                      (λ w v. v))
                    (Triple-pure config (λ w v. v))

  pub cleanup-Inv :
      Triple
        (Holds slots)
        (cleanup_expired_socks5_configs env)
        (λ _. Holds slots)
        (λ _. Holds slots)
  unfolding cleanup_expired_socks5_configs
  cleanup-Inv =
      Triple-bind (λ _. Holds slots) (Triple-now env (λ w v. v))
        λ now.
          Triple-call env _ _
            (λ w v. Inv-update (has_expired now) free_row w.socks (λ r h. refl) (λ r. refl) v)
            (λ w v. v)

  find_free-Inv : Triple (Holds slots) (find_free env slots) (IsFirstFree slots) (λ _. Holds slots)
  unfolding find_free
  find_free-Inv =
      Triple-bind (λ found w. Holds slots w × (first_row (free_rows slots w.socks) ≡ found))
        (Triple-fetch env _ (λ w v. (v, refl)) (λ w v. v))
        (elim [
          | none ↦
              Triple-then (Holds slots)
                (Triple-weaken cleanup-Inv (λ w v. v.0) (λ a w v. v) (λ x w v. v))
                (Triple-bind
                  (λ found w. Holds slots w × (first_row (free_rows slots w.socks) ≡ found))
                  (Triple-fetch env _ (λ w v. (v, refl)) (λ w v. v))
                  λ retried. Triple-ok_or retried _ (λ c w e v. (v.0, v.1 ∙ e)) (λ w e v. v.0))
          | some config ↦ Triple-pure config (λ w v. v)
        ])

  non_priority-Inv :
      (expires : ℤ)
      → Triple
          (Holds slots)
          (get_socks5_config_non_priority env expires slots)
          (Leased slots)
          (λ _. Holds slots)
  unfolding get_socks5_config_non_priority
  non_priority-Inv expires =
      Triple-with_lock env (λ w v. v) (λ w v. v)
        (Triple-bind (IsFirstFree slots) find_free-Inv λ config.
          Triple-bind (λ _. IsFirstFree slots config) (Triple-now env (λ w v. v))
            λ now.
              Triple-then (Leased slots config)
                (Triple-execute env _ (λ w. lease-Leased expires now slots config w) (λ w v. v.0))
                (Triple-pure config (λ w v. v)))

  extend-Inv :
      (u : Text) (expected new : ℤ)
      → Triple
          (Holds slots)
          (extend_socks5_lease env u expected new)
          (λ _. Holds slots)
          (λ _. Holds slots)
  unfolding extend_socks5_lease
  extend-Inv u expected new =
      Triple-bind (λ _. Holds slots) (Triple-now env (λ w v. v))
        λ now.
          Triple-bind (λ _. Holds slots)
            (Triple-call env _ _
              (λ w v.
                Inv-update (matches_lease u expected now) (set_expiry new now) w.socks (λ r h. h)
                  (λ r. refl) v)
              (λ w v. v))
            λ affected.
              Triple-if (affected == 0)
                (λ _. Triple-raise (lease_unavailable not_extendable) (λ w v. v))
                (λ _. Triple-pure new (λ w v. v))

  get_socks5_config-Inv :
      (expires : ℤ) (priority : Bool)
      → Triple
          (Holds slots)
          (get_socks5_config env expires priority slots)
          (λ _. Holds slots)
          (λ _. Holds slots)
  unfolding get_socks5_config
  get_socks5_config-Inv expires priority =
      Triple-if priority (λ _. priority-Inv expires)
        (λ _. Triple-weaken (non_priority-Inv expires) (λ w v. v) (λ c w v. v.0) (λ x w v. v))

  serve-Inv : (q : Request) (w : World) → Holds slots w → Holds slots (serve env slots q w)
  unfolding serve
  serve-Inv (lease expires priority) w v = Triple-state (get_socks5_config-Inv expires priority) w v
  serve-Inv (extend u expected new) w v = Triple-state (extend-Inv u expected new) w v
  serve-Inv cleanup w v = Triple-state cleanup-Inv w v

-- Whatever the outside answers and whatever is requested, the first `slots` rows of a table in
-- which they are available stay available, and usernames stay unique: no lease takes a priority
-- slot out of the pool.
pub run-Inv :
    (env : Env) (slots : ℤ) (qs : List Request) (w : World)
    → Holds slots w
    → Holds slots (run env slots qs w)
unfolding run
run-Inv env slots [] w v = v
run-Inv env slots (q ∷ qs) w v = run-Inv env slots qs _ (serve-Inv env slots q w v)

-- A lease that is not of the priority pool is never one of the first `slots` rows, where those
-- are available.
pub non_priority-outside :
    (env : Env) (slots expires : ℤ) (w : World) (c : Socks5Config)
    → Holds slots w
    → (get_socks5_config env expires false slots w).0 ≡ ok c
    → any_row
        (has_username c.username)
        (take (pos_part slots) (get_socks5_config env expires false slots w).1.socks)
      ≡ false
unfolding get_socks5_config
non_priority-outside env slots expires w c v e =
    (Triple-answer (non_priority-Inv env slots expires) w v e).1
