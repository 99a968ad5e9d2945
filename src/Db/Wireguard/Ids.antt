-- ===== src/Db/Wireguard/Ids.antt =====
-- The ids of the rows of worker_wireguard_configs, and the expiry that is stored for an id.
use tpn_worker.Base.{
  ℕ, zero, suc, ◌+◌, ◌≤◌, ◌<◌, ℤ, ltb, ltb_ℤ, eqb_ℤ, Bool, true, false, not, ◌&&◌, ◌==◌, List, [],
  ◌∷◌, Option, none, some, length, ◌≡◌, ◌≢◌, ◌⊎◌, refl, arith, if◌then◌else◌, Bool-cases, inl, inr,
}
use tpn_worker.World.{WgRow}
use tpn_worker.Db.Table.{where_rows, update_rows, delete_rows, any_row}
use tpn_worker.Db.Wireguard.{is_taken, count_up, first_free, insert_row, has_lapsed}

-- The ids ascend from `lo` and do not pass `hi`: they are distinct and in range.
abbrev pub Ordered : ℕ → ℕ → List WgRow → Type 0
Ordered lo hi [] = Unit
Ordered lo hi (r ∷ rs) = (lo ≤ r.id) × (r.id ≤ hi) × Ordered (suc r.id) hi rs

-- The stored expiry of an id: the abstract view of the table.
unfoldable pub lease_of : ℕ → List WgRow → Option ℤ
lease_of i [] = none
lease_of i (r ∷ rs) = if r.id == i then some r.expires_at else lease_of i rs

pub Ordered-weaken : (l lo hi : ℕ) (t : List WgRow) → l ≤ lo → Ordered lo hi t → Ordered l hi t
Ordered-weaken l lo hi [] le o = tt
Ordered-weaken l lo hi (r ∷ rs) le o = (omega arith, o.1, o.2)

-- As many rows as there are ids, at most.
pub Ordered-length :
    (lo hi : ℕ) (t : List WgRow) → lo ≤ suc hi → Ordered lo hi t → length t + lo ≤ suc hi
Ordered-length lo hi [] le o = omega arith
Ordered-length lo hi (r ∷ rs) le o =
    omega (arith, Ordered-length (suc r.id) hi rs (omega arith) o.2)

pub lease_of_below : (i lo hi : ℕ) (t : List WgRow) → Ordered lo hi t → i < lo → lease_of i t ≡ none
unfolding lease_of
lease_of_below i lo hi [] o below = refl
lease_of_below i lo hi (r ∷ rs) o below = ground (arith, lease_of_below i (suc r.id) hi rs o.2)

pub taken_iff :
    (i : ℕ) (t : List WgRow)
    → (is_taken i t ≡ false) × (lease_of i t ≡ none) ⊎ (is_taken i t ≡ true) × (lease_of i t ≢ none)
unfolding lease_of any_row
taken_iff i [] = inl (refl, refl)
taken_iff i (r ∷ rs) = ground (arith, taken_iff i rs)

-- The first free id of a range.
pub first_free-some :
    (n s : ℕ) (t : List WgRow) {i : ℕ}
    → first_free (count_up n s) t ≡ some i
    → (s ≤ i) × (i < s + n) × (is_taken i t ≡ false)
unfolding first_free count_up
first_free-some zero s t e = cc
first_free-some (suc n) s t {i} e = ground (arith, first_free-some n (suc s) t {i = i})

pub first_free_least :
    (n s : ℕ) (t : List WgRow) {i : ℕ} (j : ℕ)
    → first_free (count_up n s) t ≡ some i
    → s ≤ j
    → j < i
    → is_taken j t ≡ true
unfolding first_free count_up
first_free_least zero s t j e le lt = cc
first_free_least (suc n) s t {i} j e le lt = elim (Bool-cases (s == j)) [
  | inl same ↦ ground arith
  | inr other ↦ ground (arith, first_free_least n (suc s) t {i = i} j)
]

pub first_free-none :
    (n s : ℕ) (t : List WgRow) (j : ℕ)
    → first_free (count_up n s) t ≡ none
    → s ≤ j
    → j < s + n
    → is_taken j t ≡ true
unfolding first_free count_up
first_free-none zero s t j e le lt = absurd (omega arith)
first_free-none (suc n) s t j e le lt = elim (Bool-cases (s == j)) [
  | inl same ↦ ground arith
  | inr other ↦ ground (arith, first_free-none n (suc s) t j)
]

-- The statements on the abstract view.
pub lease_of-insert_row :
    (r : WgRow) (j : ℕ) (t : List WgRow)
    → is_taken r.id t ≡ false
    → lease_of j (insert_row r t) ≡ (if r.id == j then some r.expires_at else lease_of j t)
unfolding lease_of insert_row any_row
lease_of-insert_row r j [] free = refl
lease_of-insert_row r j (x ∷ xs) free = ground (arith, lease_of-insert_row r j xs)

pub insert_row-Ordered :
    (r : WgRow) (lo hi : ℕ) (t : List WgRow)
    → lo ≤ r.id
    → r.id ≤ hi
    → is_taken r.id t ≡ false
    → Ordered lo hi t
    → Ordered lo hi (insert_row r t)
unfolding insert_row any_row
insert_row-Ordered r lo hi [] le ge free o = (le, ge, tt)
insert_row-Ordered r lo hi (x ∷ xs) le ge free o = elim (Bool-cases (ltb r.id x.id)) [
  | inl before ↦ rw before (le, ge, (ground arith, o.1, o.2))
  | inr after ↦
      rw after
        (o.0, o.1, insert_row-Ordered r (suc x.id) hi xs (ground arith) ge (ground arith) o.2)
]

pub lease_of-delete_lapsed :
    (now : ℤ) (j lo hi : ℕ) (t : List WgRow) {e : ℤ}
    → Ordered lo hi t
    → lease_of j t ≡ some e
    → ltb_ℤ e now ≡ false
    → lease_of j (delete_rows (has_lapsed now) t) ≡ some e
unfolding lease_of delete_rows
lease_of-delete_lapsed now j lo hi [] o found live = found
lease_of-delete_lapsed now j lo hi (r ∷ rs) {e} o found live =
    ground (arith, lease_of-delete_lapsed now j (suc r.id) hi rs {e = e} o.2)

pub delete-Ordered :
    (p : WgRow → Bool) (lo hi : ℕ) (t : List WgRow)
    → Ordered lo hi t
    → Ordered lo hi (delete_rows p t)
unfolding delete_rows
delete-Ordered p lo hi [] o = tt
delete-Ordered p lo hi (r ∷ rs) o = elim (Bool-cases (p r)) [
  | inl gone ↦
      rw gone
        (Ordered-weaken lo (suc r.id) hi _ (omega arith) (delete-Ordered p (suc r.id) hi rs o.2))
  | inr kept ↦ rw kept (o.0, o.1, delete-Ordered p (suc r.id) hi rs o.2)
]

pub update-Ordered :
    (p : WgRow → Bool) (f : WgRow → WgRow) (lo hi : ℕ) (t : List WgRow)
    → ((r : WgRow) → (f r).id ≡ r.id)
    → Ordered lo hi t
    → Ordered lo hi (update_rows p f t)
unfolding update_rows
update-Ordered p f lo hi [] same o = tt
update-Ordered p f lo hi (r ∷ rs) same o = elim (Bool-cases (p r)) [
  | inl hit ↦ rw hit (rw (same r) (o.0, o.1, update-Ordered p f (suc r.id) hi rs same o.2))
  | inr miss ↦ rw miss (o.0, o.1, update-Ordered p f (suc r.id) hi rs same o.2)
]

pub lease_of_deleted :
    (p : WgRow → Bool) (j lo hi : ℕ) (t : List WgRow) {e : ℤ}
    → Ordered lo hi t
    → lease_of j (delete_rows p t) ≡ some e
    → lease_of j t ≡ some e
unfolding lease_of delete_rows
lease_of_deleted p j lo hi [] o found = found
lease_of_deleted p j lo hi (r ∷ rs) {e} o found = ground (
  arith,
  lease_of_deleted p j (suc r.id) hi rs {e = e} o.2,
  lease_of_below j (suc r.id) hi rs o.2,
)

-- The row of a lease, as `mark_config_as_free` names it.
abbrev pub is_lease : ℕ → ℤ → WgRow → Bool
is_lease i e r = r.id == i && eqb_ℤ r.expires_at e

pub lease_of-delete_lease :
    (i j lo hi : ℕ) (e : ℤ) (t : List WgRow)
    → Ordered lo hi t
    → lease_of i t ≡ some e
    → lease_of j (delete_rows (is_lease i e) t) ≡ (if i == j then none else lease_of j t)
unfolding lease_of delete_rows
lease_of-delete_lease i j lo hi e [] o found = cc
lease_of-delete_lease i j lo hi e (r ∷ rs) o found = elim (Bool-cases (r.id == i)) [
  | inl here ↦ ground (arith, untouched (suc r.id) rs o.2, lease_of_below i (suc r.id) hi rs o.2)
  | inr there ↦ ground (
    arith,
    lease_of-delete_lease i j (suc r.id) hi e rs o.2,
    lease_of_below i (suc r.id) hi rs o.2,
  )
]
  where
    untouched :
        (l : ℕ) (xs : List WgRow)
        → Ordered l hi xs
        → i < l
        → lease_of j (where_rows (λ x. not (is_lease i e x)) xs) ≡ lease_of j xs
    untouched l [] o' below = refl
    untouched l (x ∷ xs) o' below = ground (arith, untouched (suc x.id) xs o'.2)

-- An update that keeps ids and expiries keeps the view.
pub lease_of-update :
    (p : WgRow → Bool) (f : WgRow → WgRow) (j : ℕ) (t : List WgRow)
    → ((r : WgRow) → (f r).id ≡ r.id)
    → ((r : WgRow) → (f r).expires_at ≡ r.expires_at)
    → lease_of j (update_rows p f t) ≡ lease_of j t
unfolding lease_of update_rows
lease_of-update p f j [] same kept = refl
lease_of-update p f j (r ∷ rs) same kept =
    ground (arith, same r, kept r, lease_of-update p f j rs same kept)
