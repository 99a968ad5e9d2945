-- ===== src/Db/Wireguard/Allocation.antt =====
-- What `register_wireguard_lease` answers, and what it does to the leases that have not expired.
use tpn_worker.Base.{
  ℕ, suc, ◌-◌, ◌≤◌, ℤ, ltb_ℤ, true, false, List, Option, none, some, ◌≡◌, ◌≢◌, refl, arith,
}
use tpn_worker.Error.{AppError, Result, ok, err, lease_unavailable, no_slot}
use tpn_worker.World.{World, Env, WgRow}
use tpn_worker.World.Triple.{
  Triple, Triple-bind, Triple-pure, Triple-call, Triple-now, Triple-raise, Triple-weaken,
  Triple-then, Triple-fetch, Triple-execute, Triple-ignore, Triple-answer, Triple-error, Outcome,
}
use tpn_worker.Locks.{Triple-with_lock}
use tpn_worker.Db.Table.{delete_rows}
use tpn_worker.Db.Wireguard.Ids.{
  Ordered, lease_of, first_free-some, first_free-none, lease_of-insert_row, insert_row-Ordered,
  lease_of-delete_lapsed, delete-Ordered, taken_iff,
}
use tpn_worker.Db.Wireguard.{
  WgLease, is_taken, count_up, ids, first_free, upsert_lease, has_lapsed, try_allocate,
  cleanup_expired_wireguard_configs, report_exhausted, register_wireguard_lease,
}

module _ (env : Env) (lo hi : ℕ) (range : lo ≤ hi) (j : ℕ) (e : ℤ)
    (live : (k : ℕ) → ltb_ℤ e (env.clock k) ≡ false) (expires : ℤ) where
  -- The ids are distinct and in range, and `j` is leased until `e`.
  abbrev Before : World → Type 0
  Before w = Ordered lo hi w.leases × (lease_of j w.leases ≡ some e)

  -- The lease `l` is in range and new, and all else is as before.
  abbrev pub Granted : WgLease → World → Type 0
  Granted l w =
      Ordered lo hi w.leases
      × (lease_of j w.leases ≡ some e)
      × (lo ≤ l.peer_id)
      × (l.peer_id ≤ hi)
      × (l.peer_id ≢ j)
      × (l.expires_at ≡ expires)
      × (lease_of l.peer_id w.leases ≡ some expires)

  abbrev Tried : Option WgLease → World → Type 0
  Tried none w = Before w
  Tried (some l) w = Granted l w

  insert-Granted :
      (i : ℕ) (w : World)
      → Before w
      → first_free (ids lo hi) w.leases ≡ some i
      → Granted
          (record { peer_id = i; expires_at = expires })
          (record w { leases = upsert_lease i expires w.leases })
  unfolding upsert_lease ids
  insert-Granted i w b found =
      let (ge, lt, free) = first_free-some (suc (hi - lo)) lo w.leases (unfold count_up in found) in
      let row : WgRow = record { id = i; expires_at = expires; keys = none } in
      let ne : i ≢ j = ground (arith, taken_iff i w.leases) in
      rw free (
        insert_row-Ordered row lo hi w.leases ge (omega arith) free b.0,
        ground (arith, lease_of-insert_row row j w.leases free),
        ge,
        omega arith,
        ne,
        refl,
        ground (arith, lease_of-insert_row row i w.leases free),
      )

  try_allocate-Granted : Triple Before (try_allocate env lo hi expires) Tried (λ _. Before)
  unfolding try_allocate
  try_allocate-Granted =
      Triple-bind (λ found w. Before w × (first_free (ids lo hi) w.leases ≡ found))
        (Triple-fetch env _ (λ w b. (b, refl)) (λ w b. b))
        (elim [
          | none ↦ Triple-pure none (λ w b. b.0)
          | some i ↦
              Triple-then (Granted (record { peer_id = i; expires_at = expires }))
                (Triple-execute env _ (λ w b. insert-Granted i w b.0 b.1) (λ w b. b.0))
                (Triple-pure _ (λ w g. g))
        ])

  cleanup-Before : Triple Before (cleanup_expired_wireguard_configs env) (λ _. Before) (λ _. Before)
  unfolding cleanup_expired_wireguard_configs
  cleanup-Before =
      Triple-bind (λ now w. Before w × (ltb_ℤ e now ≡ false))
        (Triple-now env (λ w b. (b, live w.calls)))
        λ now.
          Triple-call env _ _
            (λ w b. (
              delete-Ordered (has_lapsed now) lo hi w.leases b.0.0,
              lease_of-delete_lapsed now j lo hi w.leases b.0.0 b.0.1 b.1,
            ))
            (λ w b. b.0)

  report-Before : Triple Before (report_exhausted env) Granted (λ _. Before)
  unfolding report_exhausted
  report-Before =
      Triple-then Before (Triple-ignore (Triple-fetch env _ (λ w b. b) (λ w b. b)))
        (Triple-raise _ (λ w b. b))

  register-Granted :
      Triple Before (register_wireguard_lease env lo hi expires) Granted (λ _. Before)
  unfolding register_wireguard_lease
  register-Granted =
      Triple-with_lock env (λ w b. b) (λ w b. b)
        (Triple-bind Tried try_allocate-Granted (elim [
          | some l ↦ Triple-pure l (λ w g. g)
          | none ↦ Triple-then Before cleanup-Before (
              Triple-bind Tried try_allocate-Granted
                (elim [ some l ↦ Triple-pure l (λ w g. g) | none ↦ report-Before ]))
        ]))

-- A registration in a table of distinct ids of a range, while `j` is leased and the clock has not
-- passed that lease's expiry, answers with another id of the range, now leased until the expiry
-- asked for; the ids stay distinct and in range, and the lease of `j` is untouched.
pub register_new_id :
    (env : Env) (lo hi j : ℕ) (e expires : ℤ) (w : World) (l : WgLease)
    → lo ≤ hi
    → Ordered lo hi w.leases
    → lease_of j w.leases ≡ some e
    → ((k : ℕ) → ltb_ℤ e (env.clock k) ≡ false)
    → (register_wireguard_lease env lo hi expires w).0 ≡ ok l
    → let w' = (register_wireguard_lease env lo hi expires w).1 in
      Ordered lo hi w'.leases
      × (lease_of j w'.leases ≡ some e)
      × (lo ≤ l.peer_id)
      × (l.peer_id ≤ hi)
      × (l.peer_id ≢ j)
      × (l.expires_at ≡ expires)
      × (lease_of l.peer_id w'.leases ≡ some expires)
register_new_id env lo hi j e expires w l range o found live answer =
    Triple-answer (register-Granted env lo hi range j e live expires) w (o, found) answer

module _ (env : Env) (lo hi : ℕ) (range : lo ≤ hi) (expires : ℤ) (t : List WgRow) where
  -- Every id of the range is leased beyond some reading of the clock.
  abbrev pub Exhausted : Type 0
  Exhausted =
      (k : ℕ) × ((i : ℕ)
        → lo ≤ i
        → i ≤ hi
        → is_taken i (delete_rows (has_lapsed (env.clock k)) t) ≡ true)

  abbrev Says : AppError → World → Type 0
  Says x w = x ≡ lease_unavailable no_slot → Exhausted

  abbrev Missed : List WgRow → Option WgLease → World → Type 0
  Missed t' none w = (w.leases ≡ t') × (first_free (ids lo hi) t' ≡ none)
  Missed t' (some l) w = Unit

  try_allocate-Missed :
      (t' : List WgRow)
      → Triple (λ w. w.leases ≡ t') (try_allocate env lo hi expires) (Missed t') Says
  unfolding try_allocate
  try_allocate-Missed t' =
      Triple-bind (λ found w. (w.leases ≡ t') × (first_free (ids lo hi) w.leases ≡ found))
        (Triple-fetch env _ (λ w e. (e, refl)) (λ w e x. cc))
        (elim [
          | none ↦ Triple-pure none (λ w h. (h.0, rw (← h.0) h.1))
          | some i ↦
              Triple-then (λ _. Unit) (Triple-execute env _ (λ w h. tt) (λ w h x. cc))
                (Triple-pure _ (λ w h. tt))
        ])

  abbrev Cleaned : World → Type 0
  Cleaned w = (k : ℕ) × (w.leases ≡ delete_rows (has_lapsed (env.clock k)) t)

  cleanup-Cleaned :
      Triple (λ w. w.leases ≡ t) (cleanup_expired_wireguard_configs env) (λ _. Cleaned) Says
  unfolding cleanup_expired_wireguard_configs
  cleanup-Cleaned =
      Triple-bind (λ now w. (w.leases ≡ t) × (k : ℕ) × (now ≡ env.clock k))
        (Triple-now env (λ w e. (e, w.calls, refl)))
        λ now. Triple-call env _ _ (λ w h. (h.1, rw (h.0, h.2))) (λ w h x. cc)

  abbrev Full : Option WgLease → World → Type 0
  Full none w = (k : ℕ) × (first_free (ids lo hi) (delete_rows (has_lapsed (env.clock k)) t) ≡ none)
  Full (some l) w = Unit

  retry-Full : Triple Cleaned (try_allocate env lo hi expires) Full Says
  retry-Full = record { at = λ w h. full h.0 _ _ ((try_allocate-Missed _).at w h.1) }
    where
      full :
          (k : ℕ) (r : Result (Option WgLease)) (w : World)
          → Outcome (Missed (delete_rows (has_lapsed (env.clock k)) t)) Says r w
          → Outcome Full Says r w
      full k (ok none) w h = (k, h.1)
      full k (ok (some l)) w h = tt
      full k (err x) w h = h

  report-Exhausted : Triple (Full none) (report_exhausted env) (λ _ _. Unit) Says
  unfolding report_exhausted ids count_up
  report-Exhausted =
      Triple-then (Full none) (Triple-ignore (Triple-fetch env _ (λ w h. h) (λ w h. h))) (
        Triple-raise _
          (λ w h x. (h.0, λ i ge le. first_free-none (suc (hi - lo)) lo _ i h.1 ge (omega arith))))

  register-Says :
      Triple (λ w. w.leases ≡ t) (register_wireguard_lease env lo hi expires) (λ _ _. Unit) Says
  unfolding register_wireguard_lease
  register-Says =
      Triple-with_lock env (λ w e. e) (λ w e x. cc)
        (Triple-bind (Missed t) (try_allocate-Missed t) (elim [
          | some l ↦ Triple-pure l (λ w h. tt)
          | none ↦
              Triple-then Cleaned
                (Triple-weaken cleanup-Cleaned (λ w h. h.0) (λ a w h. h) (λ x w h. h))
                (Triple-bind Full retry-Full
                  (elim [ some l ↦ Triple-pure l (λ w h. tt) | none ↦ report-Exhausted ]))
        ]))

-- A registration reports that there is no slot only if every id of the range has a lease that had
-- not lapsed at some reading of the clock.
pub register_exhausted :
    (env : Env) (lo hi : ℕ) (expires : ℤ) (w : World)
    → lo ≤ hi
    → (register_wireguard_lease env lo hi expires w).0 ≡ err (lease_unavailable no_slot)
    → (k : ℕ) × ((i : ℕ)
        → lo ≤ i
        → i ≤ hi
        → is_taken i (delete_rows (has_lapsed (env.clock k)) w.leases) ≡ true)
register_exhausted env lo hi expires w range answer =
    Triple-error (register-Says env lo hi range expires w.leases) w refl answer refl
