-- ===== src/Wireguard/Start/SameKeys.antt =====
-- The server's keys over several starts.
use tpn_worker.Base.{ℕ, suc, false, Text, List, [], ◌∷◌, ◌++◌, Option, none, some, ◌≡◌, refl}
use tpn_worker.Error.{ok}
use tpn_worker.World.{World, Env, ServerKeyRow, bump, fetch}
use tpn_worker.World.Triple.{
  Triple, Triple-bind, Triple-then, Triple-pure, Triple-ok_or, Triple-fetch, Triple-execute,
  Triple-draw, Triple-kernel_call, Triple-kernel_works, Triple-call_works, Triple-some,
  Triple-known, Triple-total,
}
use tpn_worker.Config.{AppConfig}
use tpn_worker.Net.Ip.{Ipv4, parse_ipv4}
use tpn_worker.Wireguard.Server.{Keys, Server}
use tpn_worker.Wireguard.Start.{
  last_row, load_or_create, load_or_create_server_keys, create_interface, new,
}

last_row-append :
    (rows : List ServerKeyRow) (r : ServerKeyRow) → last_row (rows ++ (r ∷ [])) ≡ some r
unfolding last_row
last_row-append [] r = refl
last_row-append (a ∷ []) r = refl
last_row-append (a ∷ b ∷ rows) r = last_row-append (b ∷ rows) r

-- The server of a row.
abbrev pub server_of : AppConfig → Ipv4 → ServerKeyRow → Server × Text
server_of config base row = (
  record {
    server_public_key = row.public_key;
    listen_port = config.wireguard_server_port;
    subnet_base = base;
    endpoint_host = config.server_public_host;
    dns = config.wg_dns;
  },
  row.private_key,
)

-- The table says of what row and of what subnet a server is.
abbrev pub IsStored : AppConfig → Server × Text → World → Type 0
IsStored config answer w =
    (base : Ipv4) × (row : ServerKeyRow) × (parse_ipv4 config.wg_subnet ≡ some base)
    × (last_row w.server_keys ≡ some row)
    × (answer ≡ server_of config base row)

module _ (env : Env) (keys : Keys) (config : AppConfig) where
  -- A fact that is not about the state is carried along.
  created :
      (A : Type 0) (found : Option ServerKeyRow)
      → Triple
          (λ w. A × (last_row w.server_keys ≡ found))
          (load_or_create env keys found)
          (λ row w. A × (last_row w.server_keys ≡ some row))
          (λ _ _. Unit {0})
  unfolding load_or_create
  created A (some row) = Triple-pure row (λ w h. h)
  created A none =
      Triple-bind (λ _ _. A) (Triple-draw env (λ w h. h.0))
        λ k.
          Triple-then (λ w. A × (last_row w.server_keys ≡ some _))
            (Triple-execute env _ (λ w h. (h, last_row-append w.server_keys _)) (λ w h. tt))
            (Triple-pure _ (λ w h. h))

  loaded :
      (A : Type 0)
      → Triple
          (λ _. A)
          (load_or_create_server_keys env keys)
          (λ row w. A × (last_row w.server_keys ≡ some row))
          (λ _ _. Unit {0})
  unfolding load_or_create_server_keys
  loaded A =
      Triple-bind (λ found w. A × (last_row w.server_keys ≡ found))
        (Triple-fetch env _ (λ w h. (h, refl)) (λ w h. tt)) (created A)

  pub made : Triple (λ _. Unit {0}) (new env keys config) (λ a. IsStored config a) (λ _ _. Unit {0})
  unfolding new create_interface
  made =
      Triple-bind (λ base _. parse_ipv4 config.wg_subnet ≡ some base)
        (Triple-ok_or _ _ (λ base w e h. e) (λ w e h. tt))
        λ base. Triple-bind _ (loaded _) λ row.
          Triple-then
            (λ w. (parse_ipv4 config.wg_subnet ≡ some base) × (last_row w.server_keys ≡ some row))
            (Triple-kernel_call env _ _ (λ w h. h) (λ w h. tt))
            (Triple-pure _ (λ w h. (base, row, h.0, h.1, refl)))

  -- What outside events keep, when they are counted.
  abbrev pub Counted : (ℕ → World → Type 0) → Type 0
  Counted P = (n : ℕ) (w : World) → P n w → P (suc n) (bump w)

  module _ (works : (k : ℕ) → env.fails k ≡ false) (kernel : (k : ℕ) → env.kernel_fails k ≡ false)
      (row : ServerKeyRow) (P : ℕ → World → Type 0) (counted : Counted P) (n : ℕ) where
    loaded_again :
        (w : World)
        → (last_row w.server_keys ≡ some row) × P n w
        → ((load_or_create_server_keys env keys w).0 ≡ ok row)
          × P (suc n) (load_or_create_server_keys env keys w).1
    unfolding load_or_create_server_keys load_or_create fetch
    loaded_again = Triple-total (
        Triple-known (load_or_create env keys) (some row) (P (suc n))
          (Triple-total {Q = P (suc n)}
            (Triple-call_works env _ _ works (λ w h. (h.0, counted n w h.1))))
          (Triple-pure row (λ w h. (refl, h))))

    pub made_again :
        (base : Ipv4)
        → parse_ipv4 config.wg_subnet ≡ some base
        → (w : World) → (last_row w.server_keys ≡ some row) × P n w
        → ((new env keys config w).0 ≡ ok (server_of config base row))
          × P (suc (suc n)) (new env keys config w).1
    unfolding new create_interface
    made_again base parsed = Triple-total (
        Triple-some _ _ parsed (
          Triple-known _ row (P (suc n)) loaded_again (
            Triple-then (P (suc (suc n)))
              (Triple-kernel_works env _ _ kernel (λ w h. counted (suc n) w h))
              (Triple-pure _ (λ w h. (refl, h))))))
