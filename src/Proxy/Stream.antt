-- ===== src/Proxy/Stream.antt =====
-- A client's TCP stream, as the handlers of proxy/ use it: bytes are read while there are any, and a
-- read behind the last one (the client has closed, or the time is over) ends the handler.
pub mod Parses
use tpn_worker.Base.{
  ℕ, zero, suc, ◌+◌, ◌*◌, Bool, true, false, List, [], ◌∷◌, ◌++◌, Option, none, some, length,
  if◌then◌else◌,
}

-- The bytes that the client still sends, and the messages sent to it, the last one first.
pub record Conn : Type 0 where
  pub input : List ℕ
  pub sent : List (List ℕ)

-- A handler goes on with an answer, or has ended.
abbrev pub Io {ℓ} : Type ℓ → Type ℓ
Io A = Conn → Option A × Conn

infixl 5 ◌>>=◌ ◌>>◌
unfoldable pub ◌>>=◌ {ℓ κ} : {A : Type ℓ} {B : Type κ} → Io A → (A → Io B) → Io B
◌>>=◌ m f c = let (r, c') = m c in elim r [ none ↦ (none, c') | some a ↦ f a c' ]

unfoldable pub ◌>>◌ {ℓ κ} : {A : Type ℓ} {B : Type κ} → Io A → Io B → Io B
m >> k = m >>= λ _. k

unfoldable pub pure {ℓ} : {A : Type ℓ} → A → Io A
pure a c = (some a, c)

unfoldable pub bail {ℓ} : {A : Type ℓ} → Io A
bail c = (none, c)

-- `read_exact` into a buffer of a length: the bytes, and what follows them.
unfoldable pub take_bytes : ℕ → List ℕ → Option (List ℕ × List ℕ)
take_bytes zero bs = some ([], bs)
take_bytes (suc n) [] = none
take_bytes (suc n) (b ∷ bs) = elim (take_bytes n bs) [
  | none ↦ none
  | some (xs, rest) ↦ some (b ∷ xs, rest)
]

unfoldable pub read_exact : ℕ → Io (List ℕ)
read_exact n c = elim (take_bytes n c.input) [
  | none ↦ (none, record c { input = [] })
  | some (xs, rest) ↦ (some xs, record c { input = rest })
]

unfoldable pub read_u8 : Io ℕ
read_u8 c = elim c.input [ [] ↦ (none, c) | b ∷ bs ↦ (some b, record c { input = bs }) ]

-- The first byte is the high one.
unfoldable pub read_u16 : Io ℕ
read_u16 = do hi ← read_u8; lo ← read_u8; pure (hi * 256 + lo)

-- `write_all`: the k-th write fails if the stream is broken by then.
unfoldable pub write_all : (ℕ → Bool) → List ℕ → Io (Unit {0})
write_all fails bytes c =
    if fails (length c.sent) then (none, c) else (some tt, record c { sent = bytes ∷ c.sent })
