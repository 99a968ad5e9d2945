-- ===== src/Db/RegistrationLog.antt =====
-- db/registration_log.rs: the attempts to register with the mining pool, of which the last are kept.
-- A statement that fails is reported and no more.
pub mod Bounded
pub mod Recorded
use tpn_worker.Base.{
  ℕ, suc, ℤ, Bool, not, ◌==◌, Text, List, [], ◌∷◌, ◌++◌, map, take, if◌then◌else◌,
}
use mathlib.Core.List.{reverse}
use tpn_worker.Error.{ok, err}
use tpn_worker.World.{
  World, Env, Registration, M, ◌>>=◌, ◌>>◌, pure, ignore, now_ms, fetch, execute,
}
use tpn_worker.Db.Table.{delete_rows, any_row, limit_rows}

abbrev pub kept_entries : ℕ
kept_entries = 200

-- ORDER BY id DESC
abbrev pub newest_first : List Registration → List Registration
newest_first = reverse

abbrev pub has_id_of : Registration → Registration → Bool
has_id_of r k = k.id == r.id

-- DELETE … WHERE id NOT IN (SELECT id … ORDER BY id DESC LIMIT 200)
unfoldable pub keep_newest : List Registration → List Registration
keep_newest rows =
    delete_rows (λ r. not (any_row (has_id_of r) (take kept_entries (newest_first rows)))) rows

abbrev pub entry : ℕ → ℤ → Text → Bool → ℕ → Text → Text → Registration
entry id now url success code body error = record {
  id = id;
  mining_pool_url = url;
  success = if success then 1 else 0;
  status_code = code;
  response_body = body;
  error_message = error;
  created_at = now;
}

-- A row of the log as the dashboard shows it.
pub record LogEntry : Type 0 where
  pub row : Registration
  pub success : Bool

abbrev pub shown : Registration → LogEntry
shown r = record { row = r; success = r.success == 1 }

module _ (env : Env) where
  unfoldable pub insert_registration : Text → Bool → ℕ → Text → Text → M (Unit {0})
  insert_registration url success code body error = do
    now ← now_ms env
    ignore (
        execute env λ w. record w {
          registrations =
              w.registrations ++ entry w.next_registration_id now url success code body error ∷ [];
          next_registration_id = suc w.next_registration_id;
        })
    ignore (execute env (λ w. record w { registrations = keep_newest w.registrations }))

  -- A query that fails counts as no entries.
  unfoldable pub recent_registrations : ℤ → World → List LogEntry × World
  recent_registrations limit w =
      let (r, w') = fetch env (λ w. limit_rows limit (newest_first w.registrations)) w in
      elim r [ err e ↦ ([], w') | ok rows ↦ (map shown rows, w') ]
