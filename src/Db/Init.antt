-- ===== src/Db/Init.antt =====
-- db/init.rs: what the initialization does to the tables. A table that is created is empty, and one
-- that is there is left as it is; indexes serve the queries and are not modelled, but for the unique
-- one. The SQL of the schema is the database's.
pub mod Usernames
pub mod Kept
use tpn_worker.Base.{
  ℕ, max, Bool, true, false, not, ◌&&◌, ◌||◌, ◌==◌, Text, eq_text, List, [], ◌∷◌, if◌then◌else◌,
}
use tpn_worker.Error.{AppError, db}
use tpn_worker.World.{
  World, Env, Socks5Config, M, ◌>>=◌, ◌>>◌, pure, raise, ignore, catch, for_each, execute,
}
use tpn_worker.Config.{AppConfig, is_worker}
use tpn_worker.Db.Table.{where_rows, any_row}
use tpn_worker.Db.Socks5.{has_username}

-- The tables that are dropped: those of this program, and those of older versions.
pub data Table : Type 0 where
  workers worker_performance timestamps broadcast_metadata : Table
  mining_pool_metadata challenge_solution scores : Table
  wireguard_configs wg_server socks5_configs registration_log : Table

unfoldable pub dropped_tables : List Table
dropped_tables =
    workers ∷ worker_performance ∷ timestamps ∷ broadcast_metadata ∷ mining_pool_metadata
    ∷ challenge_solution ∷ scores ∷ wireguard_configs ∷ wg_server ∷ socks5_configs
    ∷ registration_log ∷ []

-- DROP TABLE IF EXISTS, which also forgets the next id.
unfoldable pub drop_table : Table → World → World
drop_table timestamps w = record w { timestamps = [] }
drop_table wireguard_configs w = record w { leases = [] }
drop_table wg_server w = record w { server_keys = [] }
drop_table socks5_configs w = record w { socks = []; next_sock_id = 1 }
drop_table registration_log w = record w { registrations = []; next_registration_id = 1 }
drop_table _ w = w

unfoldable pub is_unique : List Socks5Config → Bool
is_unique [] = true
is_unique (r ∷ rs) = not (any_row (has_username r.username) rs) && is_unique rs

-- `MAX(id)` of the rows of a username.
unfoldable pub max_id : Text → List Socks5Config → ℕ
max_id u [] = 0
max_id u (r ∷ rs) = if has_username u r then max r.id (max_id u rs) else max_id u rs

-- DELETE … WHERE id NOT IN (SELECT MAX(id) … GROUP BY username). Ids are unique, so that an id is in
-- the list only as the highest of its own row's username.
unfoldable pub highest_only : List Socks5Config → List Socks5Config
highest_only rows = where_rows (λ r. r.id == max_id r.username rows) rows

module _ (env : Env) where
  -- CREATE … IF NOT EXISTS
  create : M (Unit {0})
  create = execute env (λ w. w)

  -- CREATE UNIQUE INDEX, which fails where a username stands twice.
  unfoldable pub create_unique_index : M (Unit {0})
  unfolding create
  create_unique_index w = if is_unique w.socks then create w else (do create; raise db) w

  unfoldable pub delete_duplicates : M (Unit {0})
  delete_duplicates = execute env (λ w. record w { socks = highest_only w.socks })

  -- The index; where it fails, duplicates are deleted and it is tried again, and no more is said.
  unfoldable pub ensure_unique_index : M (Unit {0})
  ensure_unique_index =
      catch create_unique_index (λ e. do ignore delete_duplicates; ignore create_unique_index)

  unfoldable pub drop_tables : AppConfig → M (Unit {0})
  drop_tables config =
      if config.ci_mode || config.force_destroy_database
      then for_each dropped_tables (λ t. execute env (drop_table t))
      else pure tt

  -- The tables and indexes of the leases, of the server's keys, and of the SOCKS5 credentials.
  unfoldable pub create_worker_tables : M (Unit {0})
  unfolding create
  create_worker_tables = do create; create; create; create; create; create; ensure_unique_index

  create_log : M (Unit {0})
  unfolding create
  create_log = do create; create

  unfoldable pub init_database : AppConfig → M (Unit {0})
  unfolding create create_log
  init_database config = do
    drop_tables config
    if is_worker config then create_worker_tables else pure tt
    create
    if is_worker config then create_log else pure tt
