-- ===== src/Db/Wireguard.antt =====
-- db/wireguard.rs: leases of WireGuard peer ids. The rows of worker_wireguard_configs are kept in
-- the order of their ids; the column updated_at is written and never read, and is not modelled.
pub mod Ids
pub mod Allocation
pub mod Extension
pub mod Frame
use tpn_worker.Base.{
  ℕ, zero, suc, ◌-◌, ℤ, pos, ltb, ltb_ℤ, leb_ℤ, eqb_ℤ, Bool, true, false, not, ◌&&◌, ◌==◌, List, [],
  ◌∷◌, map, Option, none, some, length, if◌then◌else◌,
}
use tpn_worker.Error.{AppError, ok, err, lease_unavailable, no_slot, not_extendable}
use tpn_worker.World.{
  World, Env, WgRow, M, ◌>>=◌, ◌>>◌, pure, raise, ignore, now_ms, fetch, execute, call,
}
use tpn_worker.Locks.{with_lock}
use tpn_worker.Db.Table.{where_rows, update_rows, delete_rows, rows_affected, first_row, any_row}

pub record WgLease : Type 0 where
  pub peer_id : ℕ
  pub expires_at : ℤ

abbrev pub has_id : ℕ → WgRow → Bool
has_id i r = r.id == i

abbrev pub is_taken : ℕ → List WgRow → Bool
is_taken i t = any_row (has_id i) t

-- `WITH RECURSIVE ids`: the start, and its successors while they do not pass the end.
unfoldable pub count_up : ℕ → ℕ → List ℕ
count_up zero i = []
count_up (suc n) i = i ∷ count_up n (suc i)

unfoldable pub ids : ℕ → ℕ → List ℕ
unfolding count_up
ids start_id end_id = start_id ∷ count_up (end_id - start_id) (suc start_id)

-- The first of the ids that no row has.
unfoldable pub first_free : List ℕ → List WgRow → Option ℕ
first_free [] t = none
first_free (i ∷ is) t = let rest = first_free is t in if is_taken i t then rest else some i

-- INSERT … ON CONFLICT (id) DO UPDATE SET expires_at.
unfoldable pub insert_row : WgRow → List WgRow → List WgRow
insert_row r [] = r ∷ []
insert_row r (x ∷ xs) = if ltb r.id x.id then r ∷ x ∷ xs else x ∷ insert_row r xs

unfoldable pub upsert_lease : ℕ → ℤ → List WgRow → List WgRow
unfolding insert_row
upsert_lease i expires t =
    if is_taken i t
    then update_rows (has_id i) (λ r. record r { expires_at = expires }) t
    else insert_row (record { id = i; expires_at = expires; keys = none }) t

abbrev pub has_lapsed : ℤ → WgRow → Bool
has_lapsed now r = ltb_ℤ r.expires_at now

-- The id of an extension is an `i32` of the request.
abbrev pub matches : ℤ → ℤ → ℤ → WgRow → Bool
matches i expected now r =
    eqb_ℤ (pos r.id) i && eqb_ℤ r.expires_at expected && ltb_ℤ now r.expires_at

-- ORDER BY expires_at ASC
unfoldable pub insert_by_expiry : WgRow → List WgRow → List WgRow
insert_by_expiry r [] = r ∷ []
insert_by_expiry r (x ∷ xs) =
    if leb_ℤ r.expires_at x.expires_at then r ∷ x ∷ xs else x ∷ insert_by_expiry r xs

unfoldable pub order_by_expiry : List WgRow → List WgRow
unfolding insert_by_expiry
order_by_expiry [] = []
order_by_expiry (r ∷ rs) = insert_by_expiry r (order_by_expiry rs)

abbrev pub to_lease : WgRow → WgLease
to_lease r = record { peer_id = r.id; expires_at = r.expires_at }

abbrev pub or_empty {ℓ} : {A : Type ℓ} → M (List A) → World → List A × World
or_empty m w = let (r, w') = m w in elim r [ ok rows ↦ (rows, w') | err e ↦ ([], w') ]

module _ (env : Env) where
  unfoldable pub try_allocate : ℕ → ℕ → ℤ → M (Option WgLease)
  try_allocate start_id end_id expires = do
    available ← fetch env (λ w. first_free (ids start_id end_id) w.leases)
    elim available [
      | none ↦ pure none
      | some i ↦ do
        execute env (λ w. record w { leases = upsert_lease i expires w.leases })
        pure (some (record { peer_id = i; expires_at = expires }))
    ]

  unfoldable pub cleanup_expired_wireguard_configs : M ℕ
  cleanup_expired_wireguard_configs = do
    now ← now_ms env
    call env AppError.db λ w. (
      rows_affected (has_lapsed now) w.leases,
      record w { leases = delete_rows (has_lapsed now) w.leases },
    )

  -- The query for the earliest expiry serves the error's text only.
  unfoldable pub report_exhausted : M WgLease
  report_exhausted = do ignore (fetch env (λ w. w.leases)); raise (lease_unavailable no_slot)

  unfoldable pub register_wireguard_lease : ℕ → ℕ → ℤ → M WgLease
  register_wireguard_lease start_id end_id expires = with_lock env do
    first ← try_allocate start_id end_id expires
    elim first [
      | some l ↦ pure l
      | none ↦ do
        cleanup_expired_wireguard_configs
        second ← try_allocate start_id end_id expires
        elim second [ some l ↦ pure l | none ↦ report_exhausted ]
    ]

  -- Answers the new expiry.
  unfoldable pub extend_wireguard_lease : ℤ → ℤ → ℤ → M ℤ
  extend_wireguard_lease i expected new = do
    now ← now_ms env
    affected ← call env AppError.db λ w. (
      rows_affected (matches i expected now) w.leases,
      record w {
        leases = update_rows (matches i expected now) (λ r. record r { expires_at = new }) w.leases;
      },
    )
    if affected == 0 then raise (lease_unavailable not_extendable) else pure new

  unfoldable pub mark_config_as_free : ℕ → Option ℤ → M (Unit {0})
  mark_config_as_free i (some expected) = execute env λ w. record w {
    leases = delete_rows (λ r. r.id == i && eqb_ℤ r.expires_at expected) w.leases;
  }
  mark_config_as_free i none =
      execute env (λ w. record w { leases = delete_rows (has_id i) w.leases })

  -- A failed query counts as no leases.
  unfoldable pub check_open_leases : World → List WgLease × World
  check_open_leases = or_empty do
    now ← now_ms env
    fetch env
        λ w. map to_lease (order_by_expiry (where_rows (λ r. ltb_ℤ now r.expires_at) w.leases))

  unfoldable pub expired_peer_ids : M (List ℕ)
  expired_peer_ids = do
    now ← now_ms env
    fetch env (λ w. map (λ r. r.id) (where_rows (has_lapsed now) w.leases))
