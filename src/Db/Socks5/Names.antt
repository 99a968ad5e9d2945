-- ===== src/Db/Socks5/Names.antt =====
-- Usernames are unique: the UNIQUE column of worker_socks5_configs.
use tpn_worker.Base.{
  ℕ, Bool, true, false, Text, eq_text, eq_text→eq, List, [], ◌∷◌, some, ◌≡◌, ap, drop,
  if◌then◌else◌, Bool-cases, inl, inr, eq_text_refl, arith,
}
use tpn_worker.World.{Socks5Config}
use tpn_worker.Db.Table.{update_rows, any_row, where_rows, first_row}
use tpn_worker.Db.Rows.{any-update, any-first_row-offset}
use tpn_worker.Db.Socks5.{has_username}

abbrev pub Unique : List Socks5Config → Type 0
Unique [] = Unit
Unique (r ∷ rs) = (any_row (has_username r.username) rs ≡ false) × Unique rs

module _ (p : Socks5Config → Bool) (f : Socks5Config → Socks5Config)
    (same : (r : Socks5Config) → (f r).username ≡ r.username) where
  pub names-update :
      (u : Text) (t : List Socks5Config)
      → any_row (has_username u) (update_rows p f t) ≡ any_row (has_username u) t
  names-update u t =
      any-update (has_username u) p f t (λ r. ap (λ (n : Text). eq_text n u) (same r))

  name-update : (r : Socks5Config) → (if p r then f r else r).username ≡ r.username
  name-update r = ground (arith, same r)

  -- An update that leaves the usernames alone keeps them unique.
  pub update-Unique : (t : List Socks5Config) → Unique t → Unique (update_rows p f t)
  unfolding update_rows
  update-Unique [] u = tt
  update-Unique (r ∷ rs) u =
      (rw (name-update r, names-update r.username rs) u.0, update-Unique rs u.1)

-- A row that a query finds behind others has not their names.
pub name-first_row :
    (p : Socks5Config → Bool) (n : ℕ) (r : Socks5Config) (rs : List Socks5Config) {c : Socks5Config}
    → Unique (r ∷ rs)
    → first_row (drop n (where_rows p rs)) ≡ some c
    → eq_text r.username c.username ≡ false
name-first_row p n r rs {c} u e = elim (Bool-cases (eq_text r.username c.username)) [
  | inr new ↦ new
  | inl same ↦
      let found : any_row (has_username r.username) rs ≡ true =
        any-first_row-offset (has_username r.username) p n rs e
          (rw (eq_text→eq _ _ same) (eq_text_refl c.username)) in
      cc (found, u.0)
]
