-- ===== src/Db/Table.antt =====
-- The SQL that the statements of db/ use, over the list of a table's rows in rowid order.
use tpn_worker.Base.{
  ℕ, ℤ, pos, negsuc, Bool, true, false, ◌&&◌, ◌||◌, not, List, [], ◌∷◌, Option, none, some, take,
  drop, if◌then◌else◌, length,
}

module _ {ℓ} {A : Type ℓ} where
  -- WHERE p
  unfoldable pub where_rows : (A → Bool) → List A → List A
  where_rows p [] = []
  where_rows p (r ∷ rs) = let rest = where_rows p rs in if p r then r ∷ rest else rest

  -- UPDATE … SET f WHERE p
  unfoldable pub update_rows : (A → Bool) → (A → A) → List A → List A
  update_rows p f [] = []
  update_rows p f (r ∷ rs) = (if p r then f r else r) ∷ update_rows p f rs

  -- DELETE … WHERE p
  unfoldable pub delete_rows : (A → Bool) → List A → List A
  unfolding where_rows
  delete_rows p rs = where_rows (λ r. not (p r)) rs

  -- rows_affected()
  unfoldable pub rows_affected : (A → Bool) → List A → ℕ
  unfolding where_rows
  rows_affected p rs = length (where_rows p rs)

  -- `fetch_optional`: the first row.
  abbrev pub first_row : List A → Option A
  first_row [] = none
  first_row (r ∷ rs) = some r

  -- LIMIT n; a negative limit is none.
  abbrev pub limit_rows : ℤ → List A → List A
  limit_rows (pos n) rs = take n rs
  limit_rows (negsuc n) rs = rs

  -- OFFSET n; a negative offset is 0.
  abbrev pub offset_rows : ℤ → List A → List A
  offset_rows (pos n) rs = drop n rs
  offset_rows (negsuc n) rs = rs

  -- Every row satisfies `q`.
  unfoldable pub all_rows : (A → Bool) → List A → Bool
  all_rows q [] = true
  all_rows q (r ∷ rs) = q r && all_rows q rs

  -- Some row satisfies `q`: EXISTS.
  unfoldable pub any_row : (A → Bool) → List A → Bool
  any_row q [] = false
  any_row q (r ∷ rs) = q r || any_row q rs
