-- ===== src/World.antt =====
-- The state that the worker's operations read and change, and the outside that they run in: the
-- database tables, the WireGuard server's peers and the in-memory credentials of `AppState`.
pub mod Triple
pub mod Frame
use tpn_worker.Base.{
  ℕ, suc, ℤ, Bool, true, false, Text, List, [], ◌∷◌, Option, none, some, if◌then◌else◌,
}
use tpn_worker.Base.Json.{Json}
use tpn_worker.Net.Ip.{Ipv4}
use tpn_worker.Error.{AppError, Result, ok, err}

-- A row of worker_socks5_configs.
pub record Socks5Config : Type 0 where
  pub id : ℕ
  pub ip_address : Text
  pub port : ℕ
  pub username : Text
  pub password : Text
  pub available : Bool
  pub expires_at : ℤ
  pub updated : ℤ

-- The key material of a row of worker_wireguard_configs.
pub record PeerKeys : Type 0 where
  pub private_key : Text
  pub public_key : Text
  pub preshared_key : Text
  pub allowed_ip : Text

-- A row of worker_wireguard_configs; its four key columns are NULL together.
pub record WgRow : Type 0 where
  pub id : ℕ
  pub expires_at : ℤ
  pub keys : Option PeerKeys

-- The server's in-memory state of a peer.
pub record PeerState : Type 0 where
  pub peer_id : ℕ
  pub private_key : Text
  pub public_key : Text
  pub preshared_key : Text
  pub allowed_ip : Ipv4

-- A peer of the kernel's WireGuard interface: its key and its allowed address, as given.
pub record KernelPeer : Type 0 where
  pub key : Text
  pub address : Text

-- An entry of the cache: a value, and the instant after which it is stale.
pub record CacheEntry : Type 0 where
  pub value : Json
  pub expires_at : Option ℤ

-- An address that a name resolves to.
pub record HostAddress : Type 0 where
  pub is_ipv4 : Bool
  pub ip : Text

-- A row of worker_registration_log; `success` is 1 or 0, and the time stands for its text.
pub record Registration : Type 0 where
  pub id : ℕ
  pub mining_pool_url : Text
  pub success : ℕ
  pub status_code : ℕ
  pub response_body : Text
  pub error_message : Text
  pub created_at : ℤ

-- A row of timestamps.
pub record Timestamp : Type 0 where
  pub label : Text
  pub timestamp : ℤ
  pub updated : ℤ

-- A row of worker_wg_server.
pub record ServerKeyRow : Type 0 where
  pub private_key : Text
  pub public_key : Text

-- What a request to the mining pool is answered with, where it is answered; the body, where it can
-- be read.
pub record PoolResponse : Type 0 where
  pub code : ℕ
  pub body : Option Text

-- Tables are the lists of their rows in rowid order. `posted` holds the requests to the mining pool,
-- the last one first, and `calls` counts the outside events so far.
pub record World : Type 0 where
  pub socks : List Socks5Config
  pub next_sock_id : ℕ
  pub leases : List WgRow
  pub registrations : List Registration
  pub next_registration_id : ℕ
  pub timestamps : List Timestamp
  pub server_keys : List ServerKeyRow
  pub posted : List Json
  pub peers : List (ℕ × PeerState)
  pub interface : List KernelPeer
  pub credentials : List (Text × Text)
  pub cache : List (Text × CacheEntry)
  pub calls : ℕ

-- What the outside answers at its n-th event: whether a statement (or a wait for a lock) fails,
-- whether a call of the kernel's WireGuard interface fails, what the clock reads, what the random
-- generator draws, what a name resolves to, what the mining pool answers, what a probe of the
-- public UDP port prints, where it runs.
pub record Env : Type 0 where
  pub fails : ℕ → Bool
  pub kernel_fails : ℕ → Bool
  pub clock : ℕ → ℤ
  pub draws : ℕ → ℕ
  pub hosts : ℕ → Option (List HostAddress)
  pub pool : ℕ → Option PoolResponse
  pub probes : ℕ → Option (Text × Text)

abbrev pub M {ℓ} : Type ℓ → Type ℓ
M A = World → Result A × World

infixl 5 ◌>>=◌ ◌>>◌
unfoldable pub ◌>>=◌ {ℓ κ} : {A : Type ℓ} {B : Type κ} → M A → (A → M B) → M B
◌>>=◌ m f w = let (r, w') = m w in elim r [ ok a ↦ f a w' | err e ↦ (err e, w') ]

unfoldable pub ◌>>◌ {ℓ κ} : {A : Type ℓ} {B : Type κ} → M A → M B → M B
m >> k = m >>= λ _. k

unfoldable pub pure {ℓ} : {A : Type ℓ} → A → M A
pure a w = (ok a, w)

unfoldable pub raise {ℓ} : {A : Type ℓ} → AppError → M A
raise e w = (err e, w)

-- `let _ = m.await;`
unfoldable pub ignore {ℓ} : {A : Type ℓ} → M A → M (Unit {0})
ignore m w = (ok tt, (m w).1)

unfoldable pub ok_or {ℓ} : {A : Type ℓ} → Option A → AppError → M A
ok_or none e = raise e
ok_or (some a) e = pure a

-- `match m.await { Err(e) => handler(e), … }`
unfoldable pub catch {ℓ} : {A : Type ℓ} → M A → (AppError → M A) → M A
catch m handler w = let (r, w') = m w in elim r [ ok a ↦ (ok a, w') | err e ↦ handler e w' ]

-- `for x in xs { f(x).await?; }`
unfoldable pub for_each {ℓ} : {A : Type ℓ} → List A → (A → M (Unit {0})) → M (Unit {0})
for_each [] f = pure tt
for_each (x ∷ xs) f = f x >> for_each xs f

abbrev pub bump : World → World
bump w = record w { calls = suc w.calls }

module _ (env : Env) where
  -- `chrono::Utc::now().timestamp_millis()`
  unfoldable pub now_ms : M ℤ
  now_ms w = (ok (env.clock w.calls), bump w)

  -- A fallible outside call: it fails and does nothing, or answers and may change the state.
  unfoldable pub call {ℓ} : {A : Type ℓ} → AppError → (World → A × World) → M A
  call e f w = if env.fails w.calls then (err e, bump w) else (ok (f w).0, bump (f w).1)

  unfoldable pub kernel_call {ℓ} : {A : Type ℓ} → AppError → (World → A × World) → M A
  kernel_call e f w =
      if env.kernel_fails w.calls then (err e, bump w) else (ok (f w).0, bump (f w).1)

  -- A statement that answers with rows, and one that changes the tables.
  unfoldable pub fetch {ℓ} : {A : Type ℓ} → (World → A) → M A
  fetch f = call AppError.db (λ w. (f w, w))

  unfoldable pub execute : (World → World) → M (Unit {0})
  execute f = call AppError.db (λ w. (tt, f w))

  unfoldable pub lookup_host : M (Option (List HostAddress))
  lookup_host w = (ok (env.hosts w.calls), bump w)

  unfoldable pub post : Json → M (Option PoolResponse)
  post payload w = (ok (env.pool w.calls), bump (record w { posted = payload ∷ w.posted }))

  unfoldable pub probe : M (Option (Text × Text))
  probe w = (ok (env.probes w.calls), bump w)

  unfoldable pub draw : M ℕ
  draw w = (ok (env.draws w.calls), bump w)

-- Names the operations above: what lists it on its `unfolding` line runs them.
unfoldable pub running : Bool
unfolding ◌>>=◌ ◌>>◌ pure raise ignore catch ok_or for_each now_ms call kernel_call fetch execute
    draw lookup_host post probe
running = true
