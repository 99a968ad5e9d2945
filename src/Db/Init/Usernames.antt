-- ===== src/Db/Init/Usernames.antt =====
-- After the initialization the usernames are unique.
use tpn_worker.Base.{
  ℕ, ltb, leb, Bool, true, false, ◌&&◌, ◌==◌, Text, eq_text→eq, List, [], ◌∷◌, ◌≡◌, refl, sym, ap,
  arith, Bool-cases, inl, inr,
}
use mathlib.Core.Path.{subst}
use tpn_worker.World.{Socks5Config}
use tpn_worker.Db.Table.{where_rows, any_row, all_rows}
use tpn_worker.Db.Socks5.{has_username}
use tpn_worker.Db.Socks5.Names.{Unique}
use tpn_worker.Db.Init.{is_unique, max_id}

-- The order of the rows: the id of each is below those behind it.
unfoldable pub rising : List Socks5Config → Bool
rising [] = true
rising (r ∷ rs) = all_rows (λ s. ltb r.id s.id) rs && rising rs

pub is_unique-Unique : (rows : List Socks5Config) → is_unique rows ≡ true → Unique rows
unfolding is_unique
is_unique-Unique [] h = tt
is_unique-Unique (r ∷ rs) h = (ground arith, is_unique-Unique rs (ground arith))

module _ (rows : List Socks5Config) where
  abbrev highest : Socks5Config → Bool
  highest r = r.id == max_id r.username rows

  -- Two rows that are the highest of one username have one id.
  same_highest :
      (r s : Socks5Config)
      → highest r ≡ true
      → highest s ≡ true
      → has_username r.username s ≡ true
      → ltb r.id s.id ≡ false
  same_highest r s hr hs same =
      let equal : max_id s.username rows ≡ max_id r.username rows =
        ap (λ (u : Text). max_id u rows) (eq_text→eq _ _ same) in
      ground arith

  none_later :
      (r : Socks5Config) (rs : List Socks5Config)
      → highest r ≡ true
      → all_rows (λ s. ltb r.id s.id) rs ≡ true
      → any_row (has_username r.username) (where_rows highest rs) ≡ false
  unfolding all_rows any_row where_rows
  none_later r [] hr later = refl
  none_later r (s ∷ rs) hr later = ground (arith, same_highest r s hr, none_later r rs hr)

  pub kept_Unique : (rs : List Socks5Config) → rising rs ≡ true → Unique (where_rows highest rs)
  unfolding rising where_rows
  kept_Unique [] h = tt
  kept_Unique (r ∷ rs) h = elim (Bool-cases (highest r)) [
    | inr other ↦ rw other (kept_Unique rs (ground arith))
    | inl top ↦ rw top (none_later r rs top (ground arith), kept_Unique rs (ground arith))
  ]

no_name-max :
    (u : Text) (rs : List Socks5Config) → any_row (has_username u) rs ≡ false → max_id u rs ≡ 0
unfolding any_row max_id
no_name-max u [] h = refl
no_name-max u (r ∷ rs) h = ground (arith, no_name-max u rs)

-- A username that is in the table is that of a row with the highest id.
pub attained :
    (u : Text) (rs : List Socks5Config)
    → any_row (has_username u) rs ≡ true
    → any_row (λ r. has_username u r && (r.id == max_id u rs)) rs ≡ true
unfolding any_row max_id
attained u [] h = h
attained u (r ∷ rs) h = elim (Bool-cases (any_row (has_username u) rs)) [
  | inr alone ↦
      let here : has_username u r ≡ true = ground arith in
      let top : max_id u (r ∷ rs) ≡ r.id = rw (here, no_name-max u rs alone) (omega arith) in
      attained_at (r.id) top (ground arith)
  | inl behind ↦ elim (Bool-cases (has_username u r && leb (max_id u rs) r.id)) [
    | inl first ↦ attained_at (r.id) (ground arith) (ground arith)
    | inr later ↦ attained_at (max_id u rs) (ground arith) (ground (arith, attained u rs behind))
  ]
]
  where
    attained_at :
        (m : ℕ)
        → max_id u (r ∷ rs) ≡ m
        → any_row (λ s. has_username u s && (s.id == m)) (r ∷ rs) ≡ true
        → any_row (λ s. has_username u s && (s.id == max_id u (r ∷ rs))) (r ∷ rs) ≡ true
    attained_at m e there =
        subst (λ (k : ℕ). any_row (λ s. has_username u s && (s.id == k)) (r ∷ rs) ≡ true) (sym e)
          there

pub named_highest :
    (u : Text) (rows rs : List Socks5Config)
    → any_row (λ r. has_username u r && (r.id == max_id u rows)) rs ≡ true
    → any_row (has_username u) (where_rows (λ r. r.id == max_id r.username rows) rs) ≡ true
unfolding any_row where_rows
named_highest u rows [] h = h
named_highest u rows (r ∷ rs) h = elim (Bool-cases (has_username u r && (r.id == max_id u rows))) [
  | inr other ↦ ground (arith, named_highest u rows rs)
  | inl top ↦
      let same : r.username ≡ u = eq_text→eq r.username u (ground arith) in
      let kept : (r.id == max_id r.username rows) ≡ true = rw same (ground arith) in
      rw kept (ground arith)
]

pub no_name-where :
    (u : Text) (p : Socks5Config → Bool) (rs : List Socks5Config)
    → any_row (has_username u) rs ≡ false
    → any_row (has_username u) (where_rows p rs) ≡ false
unfolding any_row where_rows
no_name-where u p [] h = refl
no_name-where u p (r ∷ rs) h = ground (arith, no_name-where u p rs)
