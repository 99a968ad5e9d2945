-- ===== src/Service/Cache.antt =====
-- service/cache.rs: a map whose entries may go stale. An `Instant` is a count of milliseconds.
pub mod Freshness
use tpn_worker.Base.{
  ℤ, add_ℤ, ltb_ℤ, Bool, true, false, Text, eq_text, List, [], ◌∷◌, Option, none, some,
  if◌then◌else◌,
}
use tpn_worker.Base.Json.{Json, str, as_str}
use tpn_worker.World.{CacheEntry}

abbrev pub Entries : Type 0
Entries = List (Text × CacheEntry)

-- `DashMap::get`
unfoldable pub find : Text → Entries → Option CacheEntry
find k [] = none
find k ((j, e) ∷ m) = if eq_text j k then some e else find k m

-- `TtlCache::remove`
unfoldable pub remove : Text → Entries → Entries
remove k [] = []
remove k ((j, e) ∷ m) = let rest = remove k m in if eq_text j k then rest else (j, e) ∷ rest

-- `Instant::now() > expires_at`
abbrev pub is_stale : ℤ → CacheEntry → Bool
is_stale now e = elim e.expires_at [ none ↦ false | some t ↦ ltb_ℤ t now ]

answer : ℤ → Text → Entries → Option CacheEntry → Option Json × Entries
answer now k m none = (none, m)
answer now k m (some e) = if is_stale now e then (none, remove k m) else (some e.value, m)

-- A stale entry is removed.
unfoldable pub get : ℤ → Text → Entries → Option Json × Entries
unfolding answer
get now k m = answer now k m (find k m)

abbrev string_of : Option Json → Option Text
string_of none = none
string_of (some v) = as_str v

unfoldable pub get_string : ℤ → Text → Entries → Option Text × Entries
get_string now k m = let (v, m') = get now k m in (string_of v, m')

-- The time that `ttl` gives is `now + d`, an exact sum: the source panics at one that its clock does
-- not hold.
unfoldable pub set : ℤ → Text → Json → Option ℤ → Entries → Entries
set now k v ttl m =
    (k, record { value = v; expires_at = elim ttl [ none ↦ none | some d ↦ some (add_ℤ now d) ] })
    ∷ remove k m

unfoldable pub set_string : ℤ → Text → Text → Option ℤ → Entries → Entries
set_string now k v ttl m = set now k (str v) ttl m

unfoldable pub contains : ℤ → Text → Entries → Bool × Entries
contains now k m = let (v, m') = get now k m in (elim v [ none ↦ false | some j ↦ true ], m')

-- `retain`: what is fresh at `now`.
unfoldable pub evict_expired : ℤ → Entries → Entries
evict_expired now [] = []
evict_expired now ((k, e) ∷ m) =
    let rest = evict_expired now m in if is_stale now e then rest else (k, e) ∷ rest
