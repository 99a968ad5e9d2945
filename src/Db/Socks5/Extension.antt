-- ===== src/Db/Socks5/Extension.antt =====
-- The extension of a credential's lease is a compare-and-set on its expiry.
use tpn_worker.Base.{
  ℕ, ℤ, ◌<ℤ◌, eqb_ℤ→eq, true, false, Text, eq_text, eq_text→eq, List, [], ◌∷◌, some, Option, ◌≡◌,
  ◌≢◌, refl, sym, arith, Bool-cases, inl, inr, ◌==◌, eq_text_refl,
}
use tpn_worker.Error.{AppError, ok, err, lease_unavailable, not_extendable}
use tpn_worker.World.{World, Env, Socks5Config}
use tpn_worker.World.Triple.{
  Triple, Triple-bind, Triple-pure, Triple-call, Triple-now, Triple-raise, Triple-if, Triple-answer,
  Triple-error,
}
use tpn_worker.Db.Table.{update_rows, where_rows, first_row, any_row}
use tpn_worker.Db.Rows.{update_unaffected, any_affected, any-weaken}
use tpn_worker.Db.Socks5.{matches_lease, has_username, set_expiry, extend_socks5_lease}
use tpn_worker.Db.Socks5.Names.{Unique, update-Unique}

-- The row of a username: what `read_socks5_config_by_username` looks up.
abbrev pub row_of : Text → List Socks5Config → Option Socks5Config
row_of u t = first_row (where_rows (has_username u) t)

module _ (u : Text) (expected now : ℤ) where
  matches_named :
      (r : Socks5Config) → matches_lease u expected now r ≡ true → has_username u r ≡ true
  matches_named r h = ground arith

  matches_row :
      (t : List Socks5Config)
      → Unique t
      → any_row (matches_lease u expected now) t ≡ true
      → (c : Socks5Config) × (row_of u t ≡ some c) × (matches_lease u expected now c ≡ true)
  unfolding where_rows any_row
  matches_row [] v h = cc
  matches_row (r ∷ rs) v h = elim (Bool-cases (matches_lease u expected now r)) [
    | inl good ↦ (r, ground arith, good)
    | inr other ↦
        let rest : any_row (matches_lease u expected now) rs ≡ true = ground arith in
        let (c, found, good) = matches_row rs v.1 rest in
        let twice : any_row (has_username u) rs ≡ true =
          any-weaken (matches_lease u expected now) (has_username u) rs matches_named rest in
        elim (Bool-cases (eq_text r.username u)) [
          | inr differs ↦ (c, ground (arith, found), good)
          | inl same ↦
              let named : any_row (has_username r.username) rs ≡ true =
                rw (eq_text→eq r.username u same) twice in
              absurd (cc (v.0, named))
        ]
  ]

  -- The matching row is set, and the rows of other usernames are as they were.
  set_row :
      (new : ℤ) (t : List Socks5Config) {c : Socks5Config}
      → row_of u t ≡ some c
      → matches_lease u expected now c ≡ true
      → row_of u (update_rows (matches_lease u expected now) (set_expiry new now) t)
        ≡ some (set_expiry new now c)
  unfolding where_rows update_rows
  set_row new [] e h = cc
  set_row new (r ∷ rs) {c} e h =
      ground (arith, set_row new rs {c = c}, eq_text→eq r.username u, eq_text_refl u)

  other_row :
      (new : ℤ) (v : Text) (t : List Socks5Config)
      → eq_text v u ≡ false
      → row_of v (update_rows (matches_lease u expected now) (set_expiry new now) t) ≡ row_of v t
  unfolding where_rows update_rows
  other_row new v [] other = refl
  other_row new v (r ∷ rs) other = elim (Bool-cases (eq_text r.username v)) [
    | inr differs ↦ ground (arith, other_row new v rs)
    | inl same ↦
        let unmatched : eq_text r.username u ≡ false = rw (eq_text→eq r.username v same) other in
        ground arith
  ]

module _ (env : Env) (u : Text) (expected new : ℤ) (t : List Socks5Config) where
  abbrev Same : World → Type 0
  Same w = w.socks ≡ t

  -- The lease was live with the expiry that the caller names; it alone is set to the new one.
  abbrev pub Extended : List Socks5Config → Type 0
  Extended t' =
      Unique t'
      × ((k : ℕ) × (c : Socks5Config) × (row_of u t ≡ some c)
          × (c.expires_at ≡ expected)
          × (env.clock k <ℤ expected)
          × (row_of u t' ≡ some (set_expiry new (env.clock k) c))
          × ((v : Text) → eq_text v u ≡ false → row_of v t' ≡ row_of v t))

  set-Extended :
      (k : ℕ)
      → Unique t
      → any_row (matches_lease u expected (env.clock k)) t ≡ true
      → Extended
          (update_rows (matches_lease u expected (env.clock k)) (set_expiry new (env.clock k)) t)
  set-Extended k unique h =
      let (c, found, good) = matches_row u expected (env.clock k) t unique h in
      let same : c.expires_at ≡ expected = eqb_ℤ→eq _ _ (ground arith) in
      (
        update-Unique (matches_lease u expected (env.clock k)) (set_expiry new (env.clock k))
            (λ r. refl) t unique,
        (
          k,
          c,
          found,
          same,
          rw (sym same) (ground arith),
          set_row u expected (env.clock k) new t found good,
          λ v. other_row u expected (env.clock k) new v t,
        ),
      )

  -- After the statement: nothing was affected, or the lease is extended.
  abbrev Affected : ℕ → World → Type 0
  Affected n w = ((n == 0) ≡ true → Same w) × ((n == 0) ≡ false → Extended w.socks)

  extend-Extended :
      Unique t
      → Triple Same
          (extend_socks5_lease env u expected new)
          (λ n w. (n ≡ new) × Extended w.socks)
          (λ _. Same)
  unfolding extend_socks5_lease
  extend-Extended unique =
      Triple-bind (λ now w. Same w × ((k : ℕ) × (now ≡ env.clock k)))
        (Triple-now env (λ w h. (h, (w.calls, refl))))
        λ now.
          Triple-bind Affected
            (Triple-call env _ _
              (λ w h.
                rw (h.0, h.1.1)
                  (
                    update_unaffected (matches_lease u expected (env.clock h.1.0))
                        (set_expiry new (env.clock h.1.0)) t,
                    λ affected. set-Extended h.1.0 unique (any_affected _ t affected),
                  ))
              (λ w h. h.0))
            λ affected.
              Triple-if (affected == 0)
                (λ none_affected.
                  Triple-raise (lease_unavailable not_extendable) (λ w h. h.0 none_affected))
                (λ some_affected. Triple-pure new (λ w h. (refl, h.1 some_affected)))

-- In a table of unique usernames, an extension succeeds only where the lease of the username has
-- the expiry that the caller names and is still live at a reading of the clock; it answers the new
-- expiry, that row is set to it, the rows of all other usernames are as they were, and usernames
-- stay unique.
pub extend_socks5_cas :
    (env : Env) (u : Text) (expected new n : ℤ) (w : World)
    → Unique w.socks
    → (extend_socks5_lease env u expected new w).0 ≡ ok n
    → (n ≡ new)
      × Extended env u expected new w.socks (extend_socks5_lease env u expected new w).1.socks
extend_socks5_cas env u expected new n w unique answer =
    Triple-answer (extend-Extended env u expected new w.socks unique) w refl answer

-- An extension that is refused, or whose statement fails, leaves every row as it was.
pub extend_socks5_refused :
    (env : Env) (u : Text) (expected new : ℤ) (w : World) (x : AppError)
    → Unique w.socks
    → (extend_socks5_lease env u expected new w).0 ≡ err x
    → (extend_socks5_lease env u expected new w).1.socks ≡ w.socks
extend_socks5_refused env u expected new w x unique answer =
    Triple-error (extend-Extended env u expected new w.socks unique) w refl answer

-- Of two extensions of one lease that name the same expiry, the second does not succeed, unless
-- the first has set that very expiry again.
pub extend_socks5_once :
    (env later : Env) (u : Text) (expected new other n m : ℤ) (w : World)
    → Unique w.socks
    → new ≢ expected
    → (extend_socks5_lease env u expected new w).0 ≡ ok n
    → (extend_socks5_lease later u expected other (extend_socks5_lease env u expected new w).1).0
      ≢ ok m
extend_socks5_once env later u expected new other n m w unique differs first second =
    let (a, (u', (k, c, found, was, live, after, rest))) =
      extend_socks5_cas env u expected new n w unique first in
    let (b, (u'', (k', c', found', was', live', after', rest'))) =
      extend_socks5_cas later u expected other m (extend_socks5_lease env u expected new w).1 u'
        second in
    differs (cc (after, found', was'))
