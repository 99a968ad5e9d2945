-- ===== src/Service/Cache/Freshness.antt =====
-- The cache is a map from keys to the values that are fresh.
use tpn_worker.Base.{
  ℤ, add_ℤ, leb_ℤ, true, false, Text, eq_text, eq_text→eq, eq_text_refl, [], ◌∷◌, Option, none,
  some, ◌≡◌, refl, arith, if◌then◌else◌, Bool-cases, inl, inr, sym, ap,
}
use tpn_worker.Base.Json.{Json}
use tpn_worker.World.{CacheEntry}
use tpn_worker.Service.Cache.{Entries, answer, find, remove, is_stale, get, set, evict_expired}

-- What a read of `k` at `now` answers.
abbrev pub read_at : ℤ → Text → Entries → Option Json
read_at now k m = (get now k m).0

-- No two entries have one key: what a DashMap keeps.
abbrev pub KeysUnique : Entries → Type 0
KeysUnique [] = Unit
KeysUnique ((k, e) ∷ m) = (find k m ≡ none) × KeysUnique m

fresh_value : ℤ → Option CacheEntry → Option Json
fresh_value now none = none
fresh_value now (some e) = if is_stale now e then none else some e.value

read_fresh : (now : ℤ) (k : Text) (m : Entries) → read_at now k m ≡ fresh_value now (find k m)
unfolding get answer fresh_value
read_fresh now k m = by_entry (find k m)
  where
    by_entry : (o : Option CacheEntry) → (answer now k m o).0 ≡ fresh_value now o
    by_entry none = refl
    by_entry (some e) = ground arith

find-remove :
    (j k : Text) (m : Entries) → find j (remove k m) ≡ (if eq_text k j then none else find j m)
unfolding find remove
find-remove j k [] = ground arith
find-remove j k ((i, e) ∷ m) = elim (Bool-cases (eq_text i k)) [
  | inl same ↦ rw (eq_text→eq i k same) (ground (arith, find-remove j k m, eq_text_refl k))
  | inr other ↦ elim (Bool-cases (eq_text k j)) [
    | inl here ↦
        let apart : eq_text i j ≡ false = rw (sym (eq_text→eq k j here)) other in
        ground (arith, find-remove j k m)
    | inr there ↦ ground (arith, find-remove j k m)
  ]
]

remove-KeysUnique : (k : Text) (m : Entries) → KeysUnique m → KeysUnique (remove k m)
unfolding remove
remove-KeysUnique k [] u = tt
remove-KeysUnique k ((i, e) ∷ m) u = elim (Bool-cases (eq_text i k)) [
  | inl same ↦ rw same (remove-KeysUnique k m u.1)
  | inr other ↦ rw other (rw (find-remove i k m) (ground (arith, u.0)), remove-KeysUnique k m u.1)
]

-- What is stale stays stale.
stale_later :
    (early now : ℤ) (e : CacheEntry)
    → leb_ℤ early now ≡ true
    → is_stale early e ≡ true
    → is_stale now e ≡ true
stale_later early now e le h = ground arith

fresh-remove :
    (now : ℤ) (j k : Text) (m : Entries)
    → fresh_value now (find k m) ≡ none
    → fresh_value now (find j (remove k m)) ≡ fresh_value now (find j m)
unfolding fresh_value
fresh-remove now j k m stale = rw (find-remove j k m) (elim (Bool-cases (eq_text k j)) [
  | inl here ↦ rw here (sym (rw (eq_text→eq k j here) at stale))
  | inr there ↦ rw there refl
])

fresh-evict :
    (early now : ℤ) (j : Text) (m : Entries)
    → leb_ℤ early now ≡ true
    → KeysUnique m
    → fresh_value now (find j (evict_expired early m)) ≡ fresh_value now (find j m)
unfolding evict_expired find fresh_value
fresh-evict early now j [] le u = refl
fresh-evict early now j ((i, e) ∷ m) le u = elim (Bool-cases (is_stale early e)) [
  | inl old ↦
      let old_later : is_stale now e ≡ true = stale_later early now e le old in
      rw (old, fresh-evict early now j m le u.1)
        (elim (Bool-cases (eq_text i j)) [
          | inl here ↦ rw (here, old_later) (ap (fresh_value now) (rw (eq_text→eq i j here) at u.0))
          | inr there ↦ rw there refl
        ])
  | inr live ↦ rw live (elim (Bool-cases (eq_text i j)) [
    | inl here ↦ rw here refl
    | inr there ↦ rw there (fresh-evict early now j m le u.1)
  ])
]

evict-KeysUnique : (now : ℤ) (m : Entries) → KeysUnique m → KeysUnique (evict_expired now m)
unfolding evict_expired find
evict-KeysUnique now [] u = tt
evict-KeysUnique now ((i, e) ∷ m) u = elim (Bool-cases (is_stale now e)) [
  | inl old ↦ rw old (evict-KeysUnique now m u.1)
  | inr live ↦ rw live (evicted i m u.0, evict-KeysUnique now m u.1)
]
  where
    evicted : (k : Text) (n : Entries) → find k n ≡ none → find k (evict_expired now n) ≡ none
    evicted k [] h = h
    evicted k ((j, d) ∷ n) h = ground (arith, evicted k n)

-- After a value is set, and until its time is over, a read of its key answers it; later it answers
-- nothing; and a read of any other key answers what it did.
pub read-set :
    (set_at now : ℤ) (j k : Text) (v : Json) (ttl : Option ℤ) (m : Entries)
    → read_at now j (set set_at k v ttl m) ≡ (
        if eq_text k j
        then (if is_stale now (record {
          value = v;
          expires_at = elim ttl [ none ↦ none | some d ↦ some (add_ℤ set_at d) ];
        })
            then none
            else some v)
        else read_at now j m)
unfolding set find fresh_value
read-set set_at now j k v ttl m =
    rw (read_fresh now j m, read_fresh now j (set set_at k v ttl m), find-remove j k m)
      (ground arith)

get-state :
    (early now : ℤ) (j k : Text) (m : Entries)
    → leb_ℤ early now ≡ true
    → KeysUnique m
    → (fresh_value now (find j (get early k m).1) ≡ fresh_value now (find j m))
      × KeysUnique (get early k m).1
unfolding get answer fresh_value
get-state early now j k m le u = by_entry (find k m) refl
  where
    by_entry :
        (o : Option CacheEntry)
        → find k m ≡ o
        → (fresh_value now (find j (answer early k m o).1) ≡ fresh_value now (find j m))
          × KeysUnique (answer early k m o).1
    by_entry none e = (refl, u)
    by_entry (some d) e = elim (Bool-cases (is_stale early d)) [
      | inr live ↦ rw live (refl, u)
      | inl old ↦
          let gone : fresh_value now (find k m) ≡ none =
            rw (e, stale_later early now d le old, fresh_value) refl in
          rw old (fresh-remove now j k m gone, remove-KeysUnique k m u)
    ]

-- Neither a read, which drops a stale entry, nor the eviction of all stale entries changes what a
-- read of any key answers at the same instant or a later one, and keys stay unique.
pub reads_unchanged :
    (early now : ℤ) (j k : Text) (m : Entries)
    → leb_ℤ early now ≡ true
    → KeysUnique m
    → (read_at now j (get early k m).1 ≡ read_at now j m)
      × (read_at now j (evict_expired early m) ≡ read_at now j m)
      × KeysUnique (get early k m).1
      × KeysUnique (evict_expired early m)
reads_unchanged early now j k m le u =
    let (same, unique) = get-state early now j k m le u in
    (
      rw (read_fresh now j m, read_fresh now j (get early k m).1) same,
      rw (read_fresh now j m, read_fresh now j (evict_expired early m))
          (fresh-evict early now j m le u),
      unique,
      evict-KeysUnique early m u,
    )
