-- ===== src/Db/Socks5/Exclusive.antt =====
-- A lease outside the priority pool is exclusive until it expires.
use tpn_worker.Base.{
  ℕ, ℤ, ◌<ℤ◌, eqb_ℤ, Bool, true, false, not, ◌&&◌, ◌||◌, Text, eq_text, eq_text_iff, List, some,
  none, ◌≡◌, refl, ◌∙◌, arith, ◌==◌, ◌%◌, length, get_elem?,
}
use tpn_worker.Error.{lease_unavailable, not_extendable, no_slot}
use tpn_worker.World.{World, Env, Socks5Config}
use tpn_worker.World.Triple.{
  Triple, Triple-bind, Triple-pure, Triple-call, Triple-ok_or, Triple-now, Triple-draw,
  Triple-raise, Triple-weaken, Triple-then, Triple-fetch, Triple-execute, Triple-if,
}
use tpn_worker.Locks.{Triple-with_lock}
use tpn_worker.Db.Table.{update_rows, all_rows, first_row}
use tpn_worker.Db.Rows.{
  all-update, all-where, all-where_self, all-limit, all-offset, all-first_row, all-get_elem?,
}
use tpn_worker.Db.Socks5.{
  is_available, has_username, set_expiry, lease_row, has_expired, free_row, free_rows,
  priority_rows, choose, find_free, get_socks5_config_priority, get_socks5_config_non_priority,
  cleanup_expired_socks5_configs, matches_lease, get_socks5_config, extend_socks5_lease,
}

-- The row of `u` is taken until `e`.
abbrev pub held_row : Text → ℤ → Socks5Config → Bool
held_row u e r = not (eq_text r.username u) || (not r.available && eqb_ℤ r.expires_at e)

abbrev pub Held : Text → ℤ → World → Type 0
Held u e w = all_rows (held_row u e) w.socks ≡ true

-- An available row is not that of `u`.
free_not_held :
    (u : Text) (e : ℤ) (c : Socks5Config)
    → held_row u e c ≡ true
    → c.available ≡ true
    → eq_text c.username u ≡ false
free_not_held u e c h a = ground arith

-- An update of rows with another name.
other-Held :
    (u v : Text) (e : ℤ) (p : Socks5Config → Bool) (f : Socks5Config → Socks5Config) (w : World)
    → eq_text v u ≡ false
    → ((r : Socks5Config) → p r ≡ true → eq_text r.username v ≡ true)
    → ((r : Socks5Config) → (f r).username ≡ r.username)
    → Held u e w
    → all_rows (held_row u e) (update_rows p f w.socks) ≡ true
other-Held u v e p f w other named same h =
    all-update (held_row u e) p f w.socks
      (λ r q hit. ground (arith, named r, same r, eq_text_iff r.username v, ap_name r hit)) h
  where
    ap_name : (r : Socks5Config) → p r ≡ true → eq_text (f r).username u ≡ eq_text v u
    ap_name r hit = rw (same r, (eq_text_iff r.username v).0 (named r hit)) refl

module _ (env : Env) (slots : ℤ) (u : Text) (e : ℤ) (early : (k : ℕ) → env.clock k <ℤ e) where
  -- A row that the queries select.
  abbrev pub Free : Socks5Config → World → Type 0
  Free c w = Held u e w × (eq_text c.username u ≡ false)

  pub cleanup-Held :
      Triple (Held u e) (cleanup_expired_socks5_configs env) (λ _. Held u e) (λ _. Held u e)
  unfolding cleanup_expired_socks5_configs
  cleanup-Held =
      Triple-bind (λ now w. Held u e w × (now <ℤ e)) (Triple-now env (λ w h. (h, early w.calls)))
        λ now.
          Triple-call env _ _
            (λ w h.
              all-update (held_row u e) (has_expired now) free_row w.socks
                (λ r q hit. ground (arith, h.1)) h.0)
            (λ w h. h.0)

  choose-Held :
      (configs : List Socks5Config)
      → Triple
          (λ w.
            Held u e w
            × (all_rows (held_row u e) configs ≡ true)
            × (all_rows is_available configs ≡ true))
          (choose env configs)
          Free
          (λ _. Held u e)
  unfolding choose
  choose-Held configs =
      Triple-bind
        (λ _ w.
          Held u e w
          × (all_rows (held_row u e) configs ≡ true)
          × (all_rows is_available configs ≡ true))
        (Triple-draw env (λ w h. h))
        λ n.
          Triple-ok_or (get_elem? configs (n % length configs)) (lease_unavailable no_slot)
            (λ c w found h. (
              h.0,
              free_not_held u e c (all-get_elem? (held_row u e) configs _ h.1 found)
                  (all-get_elem? is_available configs _ h.2 found),
            ))
            (λ w missing h. h.0)

  priority-Held :
      (expires : ℤ)
      → Triple (Held u e) (get_socks5_config_priority env expires slots) Free (λ _. Held u e)
  unfolding get_socks5_config_priority priority_rows
  priority-Held expires =
      Triple-bind
        (λ configs w.
          Held u e w
          × (all_rows (held_row u e) configs ≡ true)
          × (all_rows is_available configs ≡ true))
        (Triple-fetch env _
          (λ w h. (
            h,
            all-limit (held_row u e) slots _ (all-where (held_row u e) is_available w.socks h),
            all-limit is_available slots _ (all-where_self is_available w.socks),
          ))
          (λ w h. h))
        λ configs. Triple-bind Free (choose-Held configs) λ c.
          Triple-bind (λ _. Free c) (Triple-now env (λ w h. h))
            λ now.
              Triple-then (Free c)
                (Triple-execute env _
                  (λ w h. (
                    other-Held u c.username e (has_username c.username) (set_expiry expires now) w
                        h.1 (λ r p. p) (λ r. refl) h.0,
                    h.1,
                  ))
                  (λ w h. h.0))
                (Triple-pure c (λ w h. h))

  lease_first-Kept :
      (c : Socks5Config) (w : World)
      → Held u e w
      → first_row (free_rows slots w.socks) ≡ some c
      → Free c w
  unfolding free_rows
  lease_first-Kept c w h found = (
    h,
    free_not_held u e c
        (all-first_row (held_row u e) _
          (all-offset (held_row u e) slots _ (all-where (held_row u e) is_available w.socks h))
          found)
        (all-first_row is_available _
          (all-offset is_available slots _ (all-where_self is_available w.socks)) found),
  )

  find_free-Held : Triple (Held u e) (find_free env slots) Free (λ _. Held u e)
  unfolding find_free
  find_free-Held =
      Triple-bind (λ found w. Held u e w × (first_row (free_rows slots w.socks) ≡ found))
        (Triple-fetch env _ (λ w h. (h, refl)) (λ w h. h))
        (elim [
          | none ↦
              Triple-then (Held u e)
                (Triple-weaken cleanup-Held (λ w h. h.0) (λ a w h. h) (λ x w h. h))
                (Triple-bind (λ found w. Held u e w × (first_row (free_rows slots w.socks) ≡ found))
                  (Triple-fetch env _ (λ w h. (h, refl)) (λ w h. h))
                  λ retried.
                    Triple-ok_or retried _ (λ c w q h. lease_first-Kept c w h.0 (h.1 ∙ q))
                      (λ w q h. h.0))
          | some c ↦ Triple-pure c (λ w h. lease_first-Kept c w h.0 h.1)
        ])

  non_priority-Held :
      (expires : ℤ)
      → Triple (Held u e) (get_socks5_config_non_priority env expires slots) Free (λ _. Held u e)
  unfolding get_socks5_config_non_priority
  non_priority-Held expires =
      Triple-with_lock env (λ w h. h) (λ w h. h)
        (Triple-bind Free find_free-Held λ c.
          Triple-bind (λ _. Free c) (Triple-now env (λ w h. h))
            λ now.
              Triple-then (Free c)
                (Triple-execute env _
                  (λ w h. (
                    other-Held u c.username e
                        (λ r. eq_text r.username c.username && eq_text r.password c.password)
                        (lease_row expires now) w h.1 (λ r p. ground arith) (λ r. refl) h.0,
                    h.1,
                  ))
                  (λ w h. h.0))
                (Triple-pure c (λ w h. h)))

  pub extend-Held :
      (v : Text) (expected new : ℤ)
      → eq_text v u ≡ false
      → Triple (Held u e) (extend_socks5_lease env v expected new) (λ _. Held u e) (λ _. Held u e)
  unfolding extend_socks5_lease
  extend-Held v expected new other =
      Triple-bind (λ _. Held u e) (Triple-now env (λ w h. h))
        λ now.
          Triple-bind (λ _. Held u e)
            (Triple-call env _ _
              (λ w h.
                other-Held u v e (matches_lease v expected now) (set_expiry new now) w other
                  (λ r p. ground arith) (λ r. refl) h)
              (λ w h. h))
            λ affected.
              Triple-if (affected == 0)
                (λ _. Triple-raise (lease_unavailable not_extendable) (λ w h. h))
                (λ _. Triple-pure new (λ w h. h))

  pub config-Held :
      (expires : ℤ) (priority : Bool)
      → Triple (Held u e) (get_socks5_config env expires priority slots) Free (λ _. Held u e)
  unfolding get_socks5_config
  config-Held expires priority =
      Triple-if priority (λ _. priority-Held expires) (λ _. non_priority-Held expires)
