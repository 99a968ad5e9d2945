-- ===== src/Db/Socks5/NoDoubleLease.antt =====
-- Two leases of one credential: the second waits for the first to expire.
use tpn_worker.Base.{
  ℕ, zero, suc, ℤ, pos, negsuc, ◌<ℤ◌, Bool, true, false, not, ◌&&◌, ◌||◌, Text, eq_text,
  eq_text_refl, List, [], ◌∷◌, some, none, ◌≡◌, refl, ◌∙◌, drop, arith, inl, inr, Bool-cases,
}
use mathlib.Core.Path.{subst}
use tpn_worker.Error.{ok}
use tpn_worker.World.{World, Env, Socks5Config}
use tpn_worker.World.Triple.{
  Triple, Triple-bind, Triple-pure, Triple-call, Triple-ok_or, Triple-now, Triple-weaken,
  Triple-then, Triple-fetch, Triple-execute, Triple-state, Triple-answer,
}
use tpn_worker.Locks.{Triple-with_lock}
use tpn_worker.Db.Table.{where_rows, update_rows, any_row, all_rows, first_row}
use tpn_worker.Db.Socks5.Names.{Unique, update-Unique, name-first_row}
use tpn_worker.Db.Socks5.Exclusive.{held_row, Held, cleanup-Held, extend-Held, config-Held}
use tpn_worker.Db.Socks5.{
  is_available, has_username, lease_row, has_expired, free_row, free_rows, find_free,
  get_socks5_config_non_priority, cleanup_expired_socks5_configs, get_socks5_config, Request, lease,
  extend, cleanup, serve, run,
}

-- A row with the name of `c` has its password too.
abbrev is_named : Socks5Config → Socks5Config → Bool
is_named c r =
    not (eq_text r.username c.username)
    || (eq_text r.username c.username && eq_text r.password c.password)

others_named :
    (c : Socks5Config) (t : List Socks5Config)
    → any_row (has_username c.username) t ≡ false
    → all_rows (is_named c) t ≡ true
unfolding any_row all_rows
others_named c [] h = refl
others_named c (r ∷ rs) h = ground (arith, others_named c rs)

head_named :
    (r : Socks5Config) (rs : List Socks5Config)
    → any_row (has_username r.username) rs ≡ false
    → all_rows (is_named r) (r ∷ rs) ≡ true
unfolding all_rows
head_named r rs h =
    ground (arith, others_named r rs h, eq_text_refl r.username, eq_text_refl r.password)

-- With unique names the row that is found is the only one with its name.
found_named :
    (n : ℕ) (t : List Socks5Config) (c : Socks5Config)
    → Unique t
    → first_row (drop n (where_rows is_available t)) ≡ some c
    → all_rows (is_named c) t ≡ true
unfolding where_rows all_rows
found_named zero [] c u e = refl
found_named (suc n) [] c u e = refl
found_named zero (r ∷ rs) c u e = elim (Bool-cases r.available) [
  | inl free ↦
      let same : r ≡ c = ground arith in
      subst (λ x. all_rows (is_named x) (r ∷ rs) ≡ true) same (head_named r rs u.0)
  | inr taken ↦
      let found : first_row (drop 0 (where_rows is_available rs)) ≡ some c = ground arith in
      let other : eq_text r.username c.username ≡ false =
        name-first_row is_available 0 r rs u found in
      ground (arith, found_named zero rs c u.1 found)
]
found_named (suc n) (r ∷ rs) c u e = elim (Bool-cases r.available) [
  | inl free ↦
      let found : first_row (drop n (where_rows is_available rs)) ≡ some c = ground arith in
      let other : eq_text r.username c.username ≡ false =
        name-first_row is_available n r rs u found in
      ground (arith, found_named n rs c u.1 found)
  | inr taken ↦
      let found : first_row (drop (suc n) (where_rows is_available rs)) ≡ some c = ground arith in
      let other : eq_text r.username c.username ≡ false =
        name-first_row is_available (suc n) r rs u found in
      ground (arith, found_named (suc n) rs c u.1 found)
]

lease_holds :
    (c : Socks5Config) (expires now : ℤ) (t : List Socks5Config)
    → all_rows (is_named c) t ≡ true
    → all_rows (held_row c.username expires) (
        update_rows
          (λ r. eq_text r.username c.username && eq_text r.password c.password)
          (lease_row expires now)
          t)
      ≡ true
unfolding all_rows update_rows
lease_holds c expires now [] h = refl
lease_holds c expires now (r ∷ rs) h = ground (arith, lease_holds c expires now rs)

module _ (env : Env) (slots : ℤ) where
  abbrev Names : World → Type 0
  Names w = Unique w.socks

  abbrev Found : Socks5Config → World → Type 0
  Found c w = Unique w.socks × (all_rows (is_named c) w.socks ≡ true)

  first_free-Found :
      (c : Socks5Config) (w : World)
      → Names w
      → first_row (free_rows slots w.socks) ≡ some c
      → Found c w
  first_free-Found c w u found = (u, named slots found)
    where
      named :
          (s : ℤ) → first_row (free_rows s w.socks) ≡ some c → all_rows (is_named c) w.socks ≡ true
      named (pos n) e = found_named n w.socks c u (unfold free_rows in e)
      named (negsuc n) e = found_named zero w.socks c u (unfold free_rows in e)

  cleanup-Names : Triple Names (cleanup_expired_socks5_configs env) (λ _. Names) (λ _. Names)
  unfolding cleanup_expired_socks5_configs
  cleanup-Names =
      Triple-bind (λ _. Names) (Triple-now env (λ w u. u))
        λ now.
          Triple-call env _ _
            (λ w u. update-Unique (has_expired now) free_row (λ r. refl) w.socks u) (λ w u. u)

  find_free-Found : Triple Names (find_free env slots) Found (λ _. Names)
  unfolding find_free
  find_free-Found =
      Triple-bind (λ found w. Names w × (first_row (free_rows slots w.socks) ≡ found))
        (Triple-fetch env _ (λ w u. (u, refl)) (λ w u. u))
        (elim [
          | none ↦
              Triple-then Names (Triple-weaken cleanup-Names (λ w h. h.0) (λ a w u. u) (λ x w u. u))
                (Triple-bind (λ found w. Names w × (first_row (free_rows slots w.socks) ≡ found))
                  (Triple-fetch env _ (λ w u. (u, refl)) (λ w u. u))
                  λ retried.
                    Triple-ok_or retried _ (λ c w q h. first_free-Found c w h.0 (h.1 ∙ q))
                      (λ w q h. h.0))
          | some c ↦ Triple-pure c (λ w h. first_free-Found c w h.0 h.1)
        ])

  non_priority-holds :
      (expires : ℤ)
      → Triple Names
          (get_socks5_config_non_priority env expires slots)
          (λ c. Held c.username expires)
          (λ _. Names)
  unfolding get_socks5_config_non_priority
  non_priority-holds expires =
      Triple-with_lock env (λ w u. u) (λ w u. u)
        (Triple-bind Found find_free-Found λ c.
          Triple-bind (λ _. Found c) (Triple-now env (λ w h. h))
            λ now.
              Triple-then (Held c.username expires)
                (Triple-execute env _ (λ w h. lease_holds c expires now w.socks h.1) (λ w h. h.0))
                (Triple-pure c (λ w h. h)))

-- No request of the history extends the lease of `u`.
abbrev pub NoExtension : Text → List Request → Type 0
NoExtension u [] = Unit
NoExtension u (lease expires priority ∷ qs) = NoExtension u qs
NoExtension u (extend v expected new ∷ qs) = (eq_text v u ≡ false) × NoExtension u qs
NoExtension u (cleanup ∷ qs) = NoExtension u qs

module _ (env : Env) (slots : ℤ) (u : Text) (e : ℤ) (early : (k : ℕ) → env.clock k <ℤ e) where
  run-Held :
      (qs : List Request) (w : World)
      → NoExtension u qs
      → Held u e w
      → Held u e (run env slots qs w)
  unfolding run serve
  run-Held [] w none_of h = h
  run-Held (lease expires priority ∷ qs) w none_of h = run-Held qs _ none_of (
      Triple-state
        (Triple-weaken (config-Held env slots u e early expires priority) (λ w h. h) (λ c w h. h.0)
          (λ x w h. h))
        w h)
  run-Held (extend v expected new ∷ qs) w none_of h =
      run-Held qs _ none_of.1
        (Triple-state (extend-Held env slots u e early v expected new none_of.0) w h)
  run-Held (cleanup ∷ qs) w none_of h =
      run-Held qs _ none_of (Triple-state (cleanup-Held env slots u e early) w h)

-- While the clock has not reached the expiry of a lease that is not of the priority pool, and
-- nobody extends that lease, no other lease, priority or not, answers with its credential,
-- whatever else is requested and whatever calls fail in between.
pub no_double_lease :
    (env : Env) (slots expires later : ℤ) (priority : Bool) (qs : List Request) (w : World)
    (c d : Socks5Config)
    → Unique w.socks
    → ((k : ℕ) → env.clock k <ℤ expires)
    → NoExtension c.username qs
    → (get_socks5_config env expires false slots w).0 ≡ ok c
    → (get_socks5_config env later priority slots
        (run env slots qs (get_socks5_config env expires false slots w).1)).0
      ≡ ok d
    → eq_text d.username c.username ≡ false
unfolding get_socks5_config
no_double_lease env slots expires later priority qs w c d u early none_of first second =
    let held = Triple-answer (non_priority-holds env slots expires) w u first in
    (Triple-answer (config-Held env slots c.username expires early later priority) _
      (run-Held env slots c.username expires early qs _ none_of held) second).1
