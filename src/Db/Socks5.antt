-- ===== src/Db/Socks5.antt =====
-- db/socks5.rs: leases of SOCKS5 credentials. The rows of worker_socks5_configs are kept in the
-- order of their ids, so `ORDER BY id ASC` is the order of the list.
pub mod Names
pub mod Slots
pub mod Priority
pub mod Exclusive
pub mod NoDoubleLease
pub mod Extension
pub mod Frame
use tpn_worker.Base.{
  ℕ, suc, ◌+◌, ◌%◌, ℤ, pos, ltb_ℤ, leb_ℤ, eqb_ℤ, Bool, true, false, not, ◌&&◌, ◌||◌, List, [], ◌∷◌,
  ◌++◌, map, Option, none, some, Text, eq_text, length, get_elem?, if◌then◌else◌, ◌==◌,
}
use tpn_worker.Error.{AppError, lease_unavailable, internal, no_slot, not_extendable}
use tpn_worker.World.{
  World, Env, Socks5Config, M, ◌>>=◌, ◌>>◌, pure, raise, ok_or, now_ms, fetch, execute, draw, call,
  for_each,
}
use tpn_worker.Locks.{with_lock}
use tpn_worker.Db.Table.{
  where_rows, update_rows, delete_rows, rows_affected, first_row, limit_rows, offset_rows, any_row,
}

abbrev pub is_available : Socks5Config → Bool
is_available r = r.available

abbrev pub has_username : Text → Socks5Config → Bool
has_username u r = eq_text r.username u

-- The query of the priority pool, and that of the others.
unfoldable pub priority_rows : ℤ → List Socks5Config → List Socks5Config
unfolding where_rows
priority_rows slots t = limit_rows slots (where_rows is_available t)

unfoldable pub free_rows : ℤ → List Socks5Config → List Socks5Config
unfolding where_rows
free_rows slots t = offset_rows slots (where_rows is_available t)

-- The statements that change the table.
abbrev pub set_expiry : ℤ → ℤ → Socks5Config → Socks5Config
set_expiry expires now r = record r { expires_at = expires; updated = now }

abbrev pub lease_row : ℤ → ℤ → Socks5Config → Socks5Config
lease_row expires now r = record r { available = false; expires_at = expires; updated = now }

abbrev pub has_expired : ℤ → Socks5Config → Bool
has_expired now r = ltb_ℤ (pos 0) r.expires_at && leb_ℤ r.expires_at now

abbrev pub free_row : Socks5Config → Socks5Config
free_row r = record r { available = true; expires_at = pos 0 }

abbrev pub matches_lease : Text → ℤ → ℤ → Socks5Config → Bool
matches_lease u expected now r =
    eq_text r.username u && eqb_ℤ r.expires_at expected && ltb_ℤ now r.expires_at

module _ (env : Env) where
  -- The test `configs.is_empty()` and `configs.choose(&mut rng).unwrap()` in one: no index of an
  -- empty list exists, which is the error; any other list has every `n % length` in it. The
  -- random number is drawn first, which only an empty list could tell.
  unfoldable pub choose : List Socks5Config → M Socks5Config
  choose configs = do
    n ← draw env
    ok_or (get_elem? configs (n % length configs)) (lease_unavailable no_slot)

  unfoldable pub get_socks5_config_priority : ℤ → ℤ → M Socks5Config
  get_socks5_config_priority expires slots = do
    configs ← fetch env (λ w. priority_rows slots w.socks)
    config ← choose configs
    now ← now_ms env
    execute env λ w. record w {
      socks = update_rows (has_username config.username) (set_expiry expires now) w.socks;
    }
    pure config

  unfoldable pub cleanup_expired_socks5_configs : M ℕ
  cleanup_expired_socks5_configs = do
    now ← now_ms env
    call env AppError.db λ w. (
      rows_affected (has_expired now) w.socks,
      record w { socks = update_rows (has_expired now) free_row w.socks },
    )

  -- The first free row, after a cleanup if there is none.
  unfoldable pub find_free : ℤ → M Socks5Config
  find_free slots = do
    found ← fetch env (λ w. first_row (free_rows slots w.socks))
    elim found [
      | some config ↦ pure config
      | none ↦ do
        cleanup_expired_socks5_configs
        retried ← fetch env (λ w. first_row (free_rows slots w.socks))
        ok_or retried (lease_unavailable no_slot)
    ]

  unfoldable pub get_socks5_config_non_priority : ℤ → ℤ → M Socks5Config
  get_socks5_config_non_priority expires slots = with_lock env do
    config ← find_free slots
    now ← now_ms env
    execute env λ w. record w {
      socks =
          update_rows
            (λ r. eq_text r.username config.username && eq_text r.password config.password)
            (lease_row expires now) w.socks;
    }
    pure config

  unfoldable pub get_socks5_config : ℤ → Bool → ℤ → M Socks5Config
  get_socks5_config expires priority slots =
      if priority
      then get_socks5_config_priority expires slots
      else get_socks5_config_non_priority expires slots

  -- Answers the new expiry.
  unfoldable pub extend_socks5_lease : Text → ℤ → ℤ → M ℤ
  extend_socks5_lease username expected new = do
    now ← now_ms env
    affected ← call env AppError.db λ w. (
      rows_affected (matches_lease username expected now) w.socks,
      record w {
        socks = update_rows (matches_lease username expected now) (set_expiry new now) w.socks;
      },
    )
    if affected == 0 then raise (lease_unavailable not_extendable) else pure new

  unfoldable pub read_socks5_config_by_username : Text → M (Option Socks5Config)
  read_socks5_config_by_username username =
      fetch env (λ w. first_row (where_rows (has_username username) w.socks))

  unfoldable pub count_available_socks : ℤ → M ℕ
  count_available_socks skip = fetch env (λ w. length (free_rows skip w.socks))

-- INSERT … ON CONFLICT (username) DO UPDATE SET password, updated: a known username keeps its row.
unfoldable pub upsert : ℤ → Socks5Config → World → World
upsert now sock w =
    if any_row (has_username sock.username) w.socks
    then record w {
      socks =
          update_rows (has_username sock.username)
            (λ r. record r { password = sock.password; updated = now }) w.socks;
    }
    else record w {
      socks = w.socks ++ record sock { id = w.next_sock_id; updated = now } ∷ [];
      next_sock_id = suc w.next_sock_id;
    }

-- The usernames of a batch.
abbrev pub in_batch : List Socks5Config → Text → Bool
in_batch socks u = any_row (has_username u) socks

unfoldable pub write_socks : Env → List Socks5Config → M (Unit {0})
write_socks env [] = pure tt
write_socks env (first ∷ rest) = do
  now ← now_ms env
  for_each (first ∷ rest) (λ sock. execute env (upsert now sock))
  execute env
      λ w. record w { socks = delete_rows (λ r. not (in_batch (first ∷ rest) r.username)) w.socks }

-- What the handlers ask of the table, in the order in which their statements take effect; a
-- request that fails leaves what it did before, and the next one follows.
pub data Request : Type 0 where
  lease : ℤ → Bool → Request
  extend : Text → ℤ → ℤ → Request
  cleanup : Request

unfoldable pub serve : Env → ℤ → Request → World → World
serve env slots (lease expires priority) w = (get_socks5_config env expires priority slots w).1
serve env slots (extend u expected new) w = (extend_socks5_lease env u expected new w).1
serve env slots cleanup w = (cleanup_expired_socks5_configs env w).1

unfoldable pub run : Env → ℤ → List Request → World → World
run env slots [] w = w
run env slots (q ∷ qs) w = run env slots qs (serve env slots q w)
