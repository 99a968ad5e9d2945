-- ===== src/Db/Rows.antt =====
-- How the statements of `Table` act on what holds of a table's rows.
use tpn_worker.Base.{
  ℕ, zero, suc, ℤ, pos, negsuc, Bool, true, List, [], ◌∷◌, some, ◌≡◌, refl, take, drop, get_elem?,
  arith, false, ◌==◌,
}
use tpn_worker.Db.Table.{
  where_rows, update_rows, first_row, limit_rows, offset_rows, all_rows, any_row, rows_affected,
}

module _ {ℓ} {A : Type ℓ} where
  pub all-update :
      (q p : A → Bool) (f : A → A) (t : List A)
      → ((r : A) → q r ≡ true → p r ≡ true → q (f r) ≡ true)
      → all_rows q t ≡ true
      → all_rows q (update_rows p f t) ≡ true
  unfolding all_rows update_rows
  all-update q p f [] keep h = refl
  all-update q p f (r ∷ rs) keep h = ground (arith, keep r, all-update q p f rs keep)

  -- What a query selects satisfies its condition, and whatever all rows satisfy.
  pub all-where :
      (q p : A → Bool) (t : List A) → all_rows q t ≡ true → all_rows q (where_rows p t) ≡ true
  unfolding all_rows where_rows
  all-where q p [] h = refl
  all-where q p (r ∷ rs) h = ground (arith, all-where q p rs)

  pub all-where_self : (p : A → Bool) (t : List A) → all_rows p (where_rows p t) ≡ true
  unfolding all_rows where_rows
  all-where_self p [] = refl
  all-where_self p (r ∷ rs) = ground (arith, all-where_self p rs)

  pub all-drop :
      (q : A → Bool) (n : ℕ) (t : List A) → all_rows q t ≡ true → all_rows q (drop n t) ≡ true
  unfolding all_rows
  all-drop q zero t h = h
  all-drop q (suc n) [] h = refl
  all-drop q (suc n) (r ∷ rs) h = ground (arith, all-drop q n rs)

  pub all-take :
      (q : A → Bool) (n : ℕ) (t : List A) → all_rows q t ≡ true → all_rows q (take n t) ≡ true
  unfolding all_rows
  all-take q zero t h = refl
  all-take q (suc n) [] h = refl
  all-take q (suc n) (r ∷ rs) h = ground (arith, all-take q n rs)

  pub all-offset :
      (q : A → Bool) (n : ℤ) (t : List A)
      → all_rows q t ≡ true
      → all_rows q (offset_rows n t) ≡ true
  all-offset q (pos n) t h = all-drop q n t h
  all-offset q (negsuc n) t h = h

  pub all-limit :
      (q : A → Bool) (n : ℤ) (t : List A) → all_rows q t ≡ true → all_rows q (limit_rows n t) ≡ true
  all-limit q (pos n) t h = all-take q n t h
  all-limit q (negsuc n) t h = h

  pub all-first_row :
      (q : A → Bool) (t : List A) {c : A} → all_rows q t ≡ true → first_row t ≡ some c → q c ≡ true
  unfolding all_rows
  all-first_row q [] h e = cc
  all-first_row q (r ∷ rs) h e = ground arith

  pub all-get_elem? :
      (q : A → Bool) (t : List A) (i : ℕ) {c : A}
      → all_rows q t ≡ true
      → get_elem? t i ≡ some c
      → q c ≡ true
  unfolding all_rows
  all-get_elem? q [] i h e = cc
  all-get_elem? q (r ∷ rs) zero h e = ground arith
  all-get_elem? q (r ∷ rs) (suc i) h e = all-get_elem? q rs i (ground arith) e

  -- A condition that the update does not change finds the same rows afterwards.
  pub any-update :
      (q p : A → Bool) (f : A → A) (t : List A)
      → ((r : A) → q (f r) ≡ q r)
      → any_row q (update_rows p f t) ≡ any_row q t
  unfolding any_row update_rows
  any-update q p f [] same = refl
  any-update q p f (r ∷ rs) same = ground (arith, same r, any-update q p f rs same)

  -- A row found by a query after an offset is a row of the table.
  pub any-first_row-offset :
      (q p : A → Bool) (n : ℕ) (t : List A) {c : A}
      → first_row (drop n (where_rows p t)) ≡ some c
      → q c ≡ true
      → any_row q t ≡ true
  unfolding any_row where_rows
  any-first_row-offset q p zero [] e h = cc
  any-first_row-offset q p (suc n) [] e h = cc
  any-first_row-offset q p zero (r ∷ rs) {c} e h =
      ground (arith, any-first_row-offset q p zero rs {c = c})
  any-first_row-offset q p (suc n) (r ∷ rs) {c} e h =
      ground
        (arith, any-first_row-offset q p n rs {c = c}, any-first_row-offset q p (suc n) rs {c = c})

  -- An update that affects no row changes nothing.
  pub update_unaffected :
      (p : A → Bool) (f : A → A) (t : List A)
      → (rows_affected p t == 0) ≡ true
      → update_rows p f t ≡ t
  unfolding rows_affected where_rows update_rows
  update_unaffected p f [] h = refl
  update_unaffected p f (r ∷ rs) h = ground (arith, update_unaffected p f rs)

  pub any_affected :
      (p : A → Bool) (t : List A) → (rows_affected p t == 0) ≡ false → any_row p t ≡ true
  unfolding rows_affected where_rows any_row
  any_affected p [] h = cc
  any_affected p (r ∷ rs) h = ground (arith, any_affected p rs)

  pub any-weaken :
      (p q : A → Bool) (t : List A)
      → ((r : A) → p r ≡ true → q r ≡ true)
      → any_row p t ≡ true
      → any_row q t ≡ true
  unfolding any_row
  any-weaken p q [] le h = cc
  any-weaken p q (r ∷ rs) le h = ground (arith, le r, any-weaken p q rs le)
