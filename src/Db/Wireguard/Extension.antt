-- ===== src/Db/Wireguard/Extension.antt =====
-- The extension of a peer's lease is a compare-and-set on its expiry.
use tpn_worker.Base.{
  ℕ, suc, ℤ, pos, ◌<ℤ◌, eqb_ℤ→eq, true, false, List, [], ◌∷◌, some, ◌≡◌, ◌≢◌, ◌≤◌, refl, sym, arith,
  Bool-cases, inl, inr, ◌==◌,
}
use tpn_worker.Error.{ok, lease_unavailable, not_extendable}
use tpn_worker.World.{World, Env, WgRow}
use tpn_worker.World.Triple.{
  Triple, Triple-bind, Triple-pure, Triple-call, Triple-now, Triple-raise, Triple-if, Triple-answer,
}
use tpn_worker.Db.Table.{update_rows, any_row}
use tpn_worker.Db.Rows.{update_unaffected, any_affected}
use tpn_worker.Db.Wireguard.{matches, extend_wireguard_lease}
use tpn_worker.Db.Wireguard.Ids.{Ordered, lease_of, update-Ordered}

abbrev set_expiry : ℤ → WgRow → WgRow
set_expiry new r = record r { expires_at = new }

module _ (i expected now : ℤ) where
  matches_row :
      (lo hi : ℕ) (t : List WgRow)
      → Ordered lo hi t
      → any_row (matches i expected now) t ≡ true
      → (j : ℕ) × (i ≡ pos j) × (lo ≤ j) × (lease_of j t ≡ some expected) × (now <ℤ expected)
  unfolding lease_of any_row
  matches_row lo hi [] o h = cc
  matches_row lo hi (r ∷ rs) o h = elim (Bool-cases (matches i expected now r)) [
    | inl good ↦
        let is_i : pos r.id ≡ i = eqb_ℤ→eq (pos r.id) i (ground arith) in
        let same : r.expires_at ≡ expected = eqb_ℤ→eq r.expires_at expected (ground arith) in
        (r.id, sym is_i, o.0, ground arith, rw (sym same) (ground arith))
    | inr other ↦
        let (j, is_i, le, found, live) = matches_row (suc r.id) hi rs o.2 (ground arith) in
        (j, is_i, ground arith, ground arith, live)
  ]

module _ (expected now new : ℤ) (i : ℕ) where
  -- The lease that matches is set, and the others are as they were.
  set_lease :
      (t : List WgRow)
      → lease_of i t ≡ some expected
      → now <ℤ expected
      → lease_of i (update_rows (matches (pos i) expected now) (set_expiry new) t) ≡ some new
  unfolding lease_of update_rows
  set_lease [] e live = cc
  set_lease (r ∷ rs) e live = ground (arith, set_lease rs)

  other_lease :
      (j : ℕ) (t : List WgRow)
      → i ≢ j
      → lease_of j (update_rows (matches (pos i) expected now) (set_expiry new) t) ≡ lease_of j t
  unfolding lease_of update_rows
  other_lease j [] other = refl
  other_lease j (r ∷ rs) other = ground (arith, other_lease j rs)

module _ (env : Env) (lo hi : ℕ) (i expected new : ℤ) (t : List WgRow) where
  abbrev Same : World → Type 0
  Same w = w.leases ≡ t

  -- The lease was live with the expiry that the caller names; it alone is set to the new one.
  abbrev pub Extended : List WgRow → Type 0
  Extended t' =
      (k j : ℕ) × (i ≡ pos j)
      × (lease_of j t ≡ some expected)
      × (env.clock k <ℤ expected)
      × Ordered lo hi t'
      × (lease_of j t' ≡ some new)
      × ((other : ℕ) → j ≢ other → lease_of other t' ≡ lease_of other t)

  set-Extended :
      (k : ℕ)
      → Ordered lo hi t
      → any_row (matches i expected (env.clock k)) t ≡ true
      → Extended (update_rows (matches i expected (env.clock k)) (set_expiry new) t)
  set-Extended k o h =
      let now = env.clock k in
      let (j, is_i, le, found, live) = matches_row i expected now lo hi t o h in
      (
        k,
        j,
        is_i,
        found,
        live,
        update-Ordered (matches i expected now) (set_expiry new) lo hi t (λ r. refl) o,
        rw is_i (set_lease expected now new j t found live),
        λ other differs. rw is_i (other_lease expected now new j other t differs),
      )

  -- After the statement: nothing was affected, or the lease is extended.
  abbrev Affected : ℕ → World → Type 0
  Affected n w = ((n == 0) ≡ true → Same w) × ((n == 0) ≡ false → Extended w.leases)

  extend-Extended :
      Ordered lo hi t
      → Triple Same
          (extend_wireguard_lease env i expected new)
          (λ n w. (n ≡ new) × Extended w.leases)
          (λ _. Same)
  unfolding extend_wireguard_lease
  extend-Extended o =
      Triple-bind (λ now w. Same w × ((k : ℕ) × (now ≡ env.clock k)))
        (Triple-now env (λ w h. (h, (w.calls, refl))))
        λ now.
          Triple-bind Affected
            (Triple-call env _ _
              (λ w h.
                rw (h.0, h.1.1)
                  (
                    update_unaffected (matches i expected (env.clock h.1.0)) (set_expiry new) t,
                    λ affected. set-Extended h.1.0 o (any_affected _ t affected),
                  ))
              (λ w h. h.0))
            λ affected.
              Triple-if (affected == 0)
                (λ none_affected.
                  Triple-raise (lease_unavailable not_extendable) (λ w h. h.0 none_affected))
                (λ some_affected. Triple-pure new (λ w h. (refl, h.1 some_affected)))

-- In a table of distinct ids of a range, an extension succeeds only where the lease of the peer has
-- the expiry that the caller names and is still live at a reading of the clock; it answers the new
-- expiry, that lease is set to it, all other leases are as they were, and the ids stay distinct
-- and in range.
pub extend_wireguard_cas :
    (env : Env) (lo hi : ℕ) (i expected new n : ℤ) (w : World)
    → Ordered lo hi w.leases
    → (extend_wireguard_lease env i expected new w).0 ≡ ok n
    → (n ≡ new)
      × Extended env lo hi i expected new w.leases
          (extend_wireguard_lease env i expected new w).1.leases
extend_wireguard_cas env lo hi i expected new n w o answer =
    Triple-answer (extend-Extended env lo hi i expected new w.leases o) w refl answer

-- Of two extensions of one peer's lease that name the same expiry, the second does not succeed,
-- unless the first has set that very expiry again.
pub extend_wireguard_once :
    (env later : Env) (lo hi : ℕ) (i expected new other n m : ℤ) (w : World)
    → Ordered lo hi w.leases
    → new ≢ expected
    → (extend_wireguard_lease env i expected new w).0 ≡ ok n
    → (extend_wireguard_lease later i expected other
        (extend_wireguard_lease env i expected new w).1).0
      ≢ ok m
extend_wireguard_once env later lo hi i expected new other n m w o differs first second =
    let (a, (k, j, is_j, found, live, o', after, rest)) =
      extend_wireguard_cas env lo hi i expected new n w o first in
    let (b, (k', j', is_j', found', live', o'', after', rest')) =
      extend_wireguard_cas later lo hi i expected other m
        (extend_wireguard_lease env i expected new w).1 o' second in
    differs (cc (after, found', is_j, is_j'))
