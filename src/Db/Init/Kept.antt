-- ===== src/Db/Init/Kept.antt =====
-- What the initialization leaves of the tables.
use tpn_worker.Base.{
  ℕ, true, false, ◌||◌, Text, List, if◌then◌else◌, ◌≡◌, refl, ap, ◌∙◌, Bool-cases, inl, inr,
}
use tpn_worker.Error.{AppError, ok}
use tpn_worker.World.{World, Env, Socks5Config, M, bump, ◌>>◌}
use tpn_worker.World.Triple.{
  Triple, Triple-then, Triple-pure, Triple-raise, Triple-catch, Triple-ignore, Triple-weaken,
  Triple-execute_works, Triple-total,
}
use tpn_worker.Config.{AppConfig, is_worker}
use tpn_worker.Db.Table.{any_row}
use tpn_worker.Db.Socks5.{has_username}
use tpn_worker.Db.Socks5.Names.{Unique}
use tpn_worker.Db.Init.{
  is_unique, highest_only, create, create_unique_index, delete_duplicates, ensure_unique_index,
  drop_tables, create_worker_tables, create_log, init_database,
}
use tpn_worker.Db.Init.Usernames.{
  rising, is_unique-Unique, kept_Unique, attained, named_highest, no_name-where,
}

abbrev deduplicated : List Socks5Config → List Socks5Config
deduplicated rows = if is_unique rows then rows else highest_only rows

deduplicated-Unique : (rows : List Socks5Config) → rising rows ≡ true → Unique (deduplicated rows)
unfolding highest_only
deduplicated-Unique rows h = elim (Bool-cases (is_unique rows)) [
  | inl unique ↦ rw unique (is_unique-Unique rows unique)
  | inr twice ↦ rw twice (kept_Unique rows rows h)
]

names-highest :
    (u : Text) (rows : List Socks5Config)
    → any_row (has_username u) (highest_only rows) ≡ any_row (has_username u) rows
unfolding highest_only
names-highest u rows = elim (Bool-cases (any_row (has_username u) rows)) [
  | inl there ↦ rw there (named_highest u rows rows (attained u rows there))
  | inr absent ↦ rw absent (no_name-where u _ rows absent)
]

names-deduplicated :
    (u : Text) (rows : List Socks5Config)
    → any_row (has_username u) (deduplicated rows) ≡ any_row (has_username u) rows
names-deduplicated u rows = elim (Bool-cases (is_unique rows)) [
  | inl unique ↦ rw unique refl
  | inr twice ↦ rw twice (names-highest u rows)
]

-- The other tables of a state.
abbrev pub SameTables : World → World → Type 0
SameTables before w =
    (w.leases ≡ before.leases)
    × (w.server_keys ≡ before.server_keys)
    × (w.registrations ≡ before.registrations)
    × (w.timestamps ≡ before.timestamps)

module _ (env : Env) (works : (k : ℕ) → env.fails k ≡ false) (before : World) where
  abbrev Cond : List Socks5Config → World → Type 0
  Cond rows w = (w.socks ≡ rows) × SameTables before w

  created :
      (P : World → Type 0) (E : AppError → World → Type 0)
      → ((w : World) → P w → P (bump w))
      → Triple P (create env) (λ _. P) E
  unfolding create
  created P E stable = Triple-execute_works env _ works stable

  create_first :
      {m : M (Unit {0})} (P : World → Type 0) (Q : Unit {0} → World → Type 0)
      (E : AppError → World → Type 0)
      → ((w : World) → P w → P (bump w))
      → Triple P m Q E
      → Triple P (create env >> m) Q E
  create_first P Q E stable rest = Triple-then P (created P E stable) rest

  indexed :
      (rows : List Socks5Config)
      → Triple
          (Cond rows)
          (create_unique_index env)
          (λ _ w. (is_unique rows ≡ true) × Cond rows w)
          (λ _ w. (is_unique rows ≡ false) × Cond rows w)
  unfolding create_unique_index
  indexed rows = record {
    at = λ w h. elim (Bool-cases (is_unique w.socks)) [
      | inl unique ↦ rw unique (
          (created (λ v. (is_unique rows ≡ true) × Cond rows v) _ (λ v k. k)).at w
            (rw h.0 at unique, h))
      | inr twice ↦ rw twice (
          (Triple-then (λ v. (is_unique rows ≡ false) × Cond rows v)
              (created (λ v. (is_unique rows ≡ false) × Cond rows v) _ (λ v k. k))
              (Triple-raise _ (λ v k. k))).at
            w (rw h.0 at twice, h))
    ];
  }

  index_ensured :
      (rows : List Socks5Config) (E : AppError → World → Type 0)
      → Triple (Cond rows) (ensure_unique_index env) (λ _. Cond (deduplicated rows)) E
  unfolding ensure_unique_index delete_duplicates ◌>>◌
  index_ensured rows E =
      Triple-catch (λ _ w. (is_unique rows ≡ false) × Cond rows w)
        (Triple-weaken (indexed rows) (λ w h. h) (λ _ w h. rw h.0 h.1) (λ _ w h. h))
        λ _.
          Triple-then (Cond (deduplicated rows))
            (Triple-ignore
              (Triple-execute_works env _ works (λ w h. rw h.0 (ap highest_only h.1.0, h.1.1))))
            (Triple-ignore (
              Triple-weaken (indexed (deduplicated rows)) (λ w h. h) (λ _ w h. h.1) (λ _ w h. h.1)))

  tables_created :
      (rows : List Socks5Config) (E : AppError → World → Type 0)
      → Triple (Cond rows) (create_worker_tables env) (λ _. Cond (deduplicated rows)) E
  unfolding create_worker_tables
  tables_created rows E =
      let after = Cond (deduplicated rows) in
      let next = λ (m : M (Unit {0})) (t : Triple (Cond rows) m (λ _. after) E).
        create_first (Cond rows) (λ _. after) E (λ w h. h) t in
      next _ (next _ (next _ (next _ (next _ (next _ (index_ensured rows E))))))

  initialized :
      (config : AppConfig) (rows : List Socks5Config) (E : AppError → World → Type 0)
      → is_worker config ≡ true
      → (config.ci_mode || config.force_destroy_database) ≡ false
      → Triple
          (Cond rows)
          (init_database env config)
          (λ a w. (a ≡ tt) × Cond (deduplicated rows) w)
          E
  unfolding init_database drop_tables create_log
  initialized config rows E worker keep =
      let after = Cond (deduplicated rows) in
      let done = λ (a : Unit {0}) (w : World). (a ≡ tt) × after w in
      rw (worker, keep)
        (Triple-then (Cond rows) (Triple-pure tt (λ w h. h)) (
          Triple-then after (tables_created rows E) (
            create_first after done E (λ w h. h)
              (create_first after done E (λ w h. h)
                (Triple-weaken (created after E (λ w h. h)) (λ w h. h) (λ a w h. (refl, h))
                  (λ _ w h. h))))))

-- Where no statement fails, a worker's start that does not drop its tables leaves no username twice
-- in the table of SOCKS5 credentials, whatever an older version left there, and loses none; every
-- other table is as before. The rows are in the order of their ids.
pub init_database_lem :
    (env : Env) (config : AppConfig) (w : World)
    → ((k : ℕ) → env.fails k ≡ false)
    → is_worker config ≡ true
    → (config.ci_mode || config.force_destroy_database) ≡ false
    → rising w.socks ≡ true
    → let r = init_database env config w in
      (r.0 ≡ ok tt)
      × Unique r.1.socks
      × ((u : Text) → any_row (has_username u) r.1.socks ≡ any_row (has_username u) w.socks)
      × SameTables w r.1
init_database_lem env config w works worker keep rises =
    let h =
      Triple-total (initialized env works w config w.socks _ worker keep) w
        (refl, (refl, refl, refl, refl)) in
    (
      h.0,
      rw h.1.0 (deduplicated-Unique w.socks rises),
      λ u. ap (any_row (has_username u)) h.1.0 ∙ names-deduplicated u w.socks,
      h.1.1,
    )
