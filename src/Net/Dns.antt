-- ===== src/Net/Dns.antt =====
-- net/dns.rs: host names, and their addresses through the cache.
use tpn_worker.Base.{
  ℕ, ℤ, pos, ltb, Bool, true, false, not, ◌&&◌, ◌||◌, ◌==◌, Text, eq_text, codes, List, [], ◌∷◌,
  ◌++◌, map, Option, none, some, split, join, trim, is_empty, strip_prefix, if◌then◌else◌,
}
use tpn_worker.Error.{internal, unresolved}
use tpn_worker.World.{Env, HostAddress, M, ◌>>=◌, ◌>>◌, pure, raise, ok_or, now_ms, lookup_host}
use tpn_worker.Net.Ip.{is_valid_ipv4, sanitize_ipv4}
use tpn_worker.Service.Cache
use tpn_worker.Db.Table.{where_rows}

-- What follows the first "://", if there is one: `split("://").nth(1)` ends at the next one.
unfoldable pub until_scheme : Text → Text
until_scheme [] = []
until_scheme (c ∷ s) =
    let rest = until_scheme s in
    elim (strip_prefix (codes "://") (c ∷ s)) [ none ↦ c ∷ rest | some r ↦ [] ]

unfoldable pub after_scheme : Text → Option Text
unfolding until_scheme
after_scheme [] = none
after_scheme (c ∷ s) =
    let later = after_scheme s in
    elim (strip_prefix (codes "://") (c ∷ s)) [ none ↦ later | some r ↦ some (until_scheme r) ]

-- `split(c).next()`: what stands before the first `c`.
unfoldable pub before : ℕ → Text → Text
before c [] = []
before c (d ∷ s) = let rest = before c s in if d == c then [] else d ∷ rest

unfoldable pub extract_hostname : Text → Text
extract_hostname input = elim (after_scheme input) [
  | none ↦ before b':' input
  | some rest ↦ before b':' (before b'/' rest)
]

-- The order of strings is that of their bytes.
unfoldable pub le_text : Text → Text → Bool
le_text [] t = true
le_text (c ∷ s) [] = false
le_text (c ∷ s) (d ∷ t) = ltb c d || (c == d && le_text s t)

unfoldable pub insert_text : Text → List Text → List Text
insert_text t [] = t ∷ []
insert_text t (u ∷ us) = if le_text t u then t ∷ u ∷ us else u ∷ insert_text t us

unfoldable pub sort_texts : List Text → List Text
sort_texts [] = []
sort_texts (t ∷ ts) = insert_text t (sort_texts ts)

-- `dedup`: neighbours that are equal become one.
unfoldable pub dedup : List Text → List Text
dedup [] = []
dedup (t ∷ []) = t ∷ []
dedup (t ∷ u ∷ us) = let rest = dedup (u ∷ us) in if eq_text t u then rest else t ∷ rest

-- DNS_CACHE_TTL in milliseconds.
abbrev pub dns_cache_ttl : ℤ
dns_cache_ttl = pos 900000

-- The addresses of a cached list.
unfoldable pub cached_values : Text → List Text
cached_values s = map sanitize_ipv4 (where_rows (λ t. not (is_empty t)) (map trim (split b',' s)))

abbrev ipv4_only : List HostAddress → List Text
ipv4_only hosts = map (λ a. a.ip) (where_rows (λ a. a.is_ipv4) hosts)

module _ (env : Env) where
  unfoldable pub get_cached : Text → M (Option Text)
  get_cached k = do
    now ← now_ms env
    λ w. let (v, c) = Cache.get_string now k w.cache in pure v (record w { cache = c })

  unfoldable pub set_cached : Text → Text → M (Unit {0})
  set_cached k v = do
    now ← now_ms env
    λ w. pure tt (record w { cache = Cache.set_string now k v (some dns_cache_ttl) w.cache })

  unfoldable pub first_or_fail : List Text → M Text
  first_or_fail [] = raise (internal unresolved)
  first_or_fail (t ∷ ts) = pure t

  unfoldable pub resolve_domain_to_ip : Text → M Text
  resolve_domain_to_ip url_or_domain =
      let domain = extract_hostname url_or_domain in
      if is_valid_ipv4 domain then pure (sanitize_ipv4 domain) else do
        cached ← get_cached (codes "resolved_domain_" ++ domain)
        elim cached [
          | some t ↦ pure t
          | none ↦ do
            found ← lookup_host env
            hosts ← ok_or found (internal unresolved)
            resolved ← first_or_fail (ipv4_only hosts)
            set_cached (codes "resolved_domain_" ++ domain) (sanitize_ipv4 resolved)
            pure (sanitize_ipv4 resolved)
        ]

  unfoldable pub or_cache : Text → List Text → M (List Text)
  or_cache k [] = raise (internal unresolved)
  or_cache k (t ∷ ts) = do set_cached k (join (b',' ∷ []) (t ∷ ts)); pure (t ∷ ts)

  unfoldable pub look_up : Text → M (List Text)
  look_up k = do
    found ← lookup_host env
    hosts ← ok_or found (internal unresolved)
    or_cache k (dedup (sort_texts (map sanitize_ipv4 (ipv4_only hosts))))

  -- The addresses of the cache, where there is one at least.
  unfoldable pub cached_or_look_up : Text → Option Text → M (List Text)
  cached_or_look_up k none = look_up k
  cached_or_look_up k (some s) = elim (cached_values s) [ [] ↦ look_up k | v ∷ vs ↦ pure (v ∷ vs) ]

  unfoldable pub resolve_domain_to_ipv4s : Text → M (List Text)
  resolve_domain_to_ipv4s url_or_domain =
      let domain = extract_hostname url_or_domain in
      let k = codes "resolved_domain_ipv4s_" ++ domain in
      if is_valid_ipv4 domain
      then pure (sanitize_ipv4 domain ∷ [])
      else do cached ← get_cached k; cached_or_look_up k cached
