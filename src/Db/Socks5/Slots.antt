-- ===== src/Db/Socks5/Slots.antt =====
-- The rows of the priority pool, and the statement that leases a row behind them.
use tpn_worker.Base.{
  ℕ, zero, suc, ℤ, pos, negsuc, pos_part, Bool, true, false, ◌&&◌, eq_text, List, [], ◌∷◌, some,
  ◌≡◌, refl, drop, take, arith,
}
use tpn_worker.World.{World, Socks5Config}
use tpn_worker.Db.Table.{where_rows, update_rows, any_row, first_row}
use tpn_worker.Db.Socks5.Names.{Unique, update-Unique, name-first_row}
use tpn_worker.Db.Socks5.{is_available, has_username, lease_row, free_rows}

-- The first `n` rows are available.
abbrev pub SlotsFree : ℕ → List Socks5Config → Type 0
SlotsFree zero t = Unit
SlotsFree (suc n) [] = Unit
SlotsFree (suc n) (r ∷ rs) = (r.available ≡ true) × SlotsFree n rs

pub update-SlotsFree :
    (p : Socks5Config → Bool) (f : Socks5Config → Socks5Config) (n : ℕ) (t : List Socks5Config)
    → ((r : Socks5Config) → r.available ≡ true → (f r).available ≡ true)
    → SlotsFree n t
    → SlotsFree n (update_rows p f t)
unfolding update_rows
update-SlotsFree p f zero t keep h = tt
update-SlotsFree p f (suc n) [] keep h = tt
update-SlotsFree p f (suc n) (r ∷ rs) keep h =
    (ground (arith, keep r h.0), update-SlotsFree p f n rs keep h.1)

-- The update of a non-priority lease.
abbrev pub is_config : Socks5Config → Socks5Config → Bool
is_config c r = eq_text r.username c.username && eq_text r.password c.password

-- A row that is found behind `n` available rows is not one of the first `n`.
lease-SlotsFree :
    (expires now : ℤ) (n : ℕ) (t : List Socks5Config) (c : Socks5Config)
    → Unique t
    → SlotsFree n t
    → first_row (drop n (where_rows is_available t)) ≡ some c
    → SlotsFree n (update_rows (is_config c) (lease_row expires now) t)
unfolding update_rows where_rows
lease-SlotsFree expires now zero t c u h e = tt
lease-SlotsFree expires now (suc n) [] c u h e = tt
lease-SlotsFree expires now (suc n) (r ∷ rs) c u h e =
    let found : first_row (drop n (where_rows is_available rs)) ≡ some c = ground arith in
    let other : eq_text r.username c.username ≡ false =
      name-first_row is_available n r rs u found in
    (ground arith, lease-SlotsFree expires now n rs c u.1 h.1 found)

-- Usernames are unique, and the priority slots are available.
pub record Inv (slots : ℤ) (t : List Socks5Config) : Type 0 where
  pub unique : Unique t
  pub free : SlotsFree (pos_part slots) t

abbrev pub Holds : ℤ → World → Type 0
Holds slots w = Inv slots w.socks

-- A row that the non-priority query may answer with.
abbrev pub IsFirstFree : ℤ → Socks5Config → World → Type 0
IsFirstFree slots c w = Inv slots w.socks × (first_row (free_rows slots w.socks) ≡ some c)

pub lease-Inv :
    (expires now slots : ℤ) (c : Socks5Config) (w : World)
    → IsFirstFree slots c w
    → Inv slots (update_rows (is_config c) (lease_row expires now) w.socks)
unfolding free_rows
lease-Inv expires now (pos n) c w (v, e) = record {
  unique = update-Unique (is_config c) (lease_row expires now) (λ r. refl) w.socks v.unique;
  free = lease-SlotsFree expires now n w.socks c v.unique v.free e;
}
lease-Inv expires now (negsuc n) c w (v, e) = record {
  unique = update-Unique (is_config c) (lease_row expires now) (λ r. refl) w.socks v.unique;
  free = tt;
}

-- After a lease of `c`.
abbrev pub Leased : ℤ → Socks5Config → World → Type 0
Leased slots c w =
    Inv slots w.socks × (any_row (has_username c.username) (take (pos_part slots) w.socks) ≡ false)

lease-outside :
    (p : Socks5Config → Bool) (f : Socks5Config → Socks5Config) (n : ℕ) (t : List Socks5Config)
    (c : Socks5Config)
    → ((r : Socks5Config) → (f r).username ≡ r.username)
    → Unique t
    → SlotsFree n t
    → first_row (drop n (where_rows is_available t)) ≡ some c
    → any_row (has_username c.username) (take n (update_rows p f t)) ≡ false
unfolding update_rows where_rows any_row
lease-outside p f zero t c same u h e = refl
lease-outside p f (suc n) [] c same u h e = refl
lease-outside p f (suc n) (r ∷ rs) c same u h e =
    let found : first_row (drop n (where_rows is_available rs)) ≡ some c = ground arith in
    let other : eq_text r.username c.username ≡ false =
      name-first_row is_available n r rs u found in
    ground (arith, same r, lease-outside p f n rs c same u.1 h.1 found)

pub lease-Leased :
    (expires now slots : ℤ) (c : Socks5Config) (w : World)
    → IsFirstFree slots c w
    → Leased slots c
        (record w { socks = update_rows (is_config c) (lease_row expires now) w.socks })
unfolding free_rows any_row
lease-Leased expires now (pos n) c w v = (
  lease-Inv expires now (pos n) c w v,
  lease-outside (is_config c) (lease_row expires now) n w.socks c (λ r. refl) v.0.unique v.0.free
      v.1,
)
lease-Leased expires now (negsuc n) c w v = (lease-Inv expires now (negsuc n) c w v, refl)
