-- ===== src/Proxy/Stream/Parses.antt =====
-- What a handler that goes on has read and written.
use tpn_worker.Base.{
  ℕ, zero, suc, Bool, true, false, List, [], ◌∷◌, ◌++◌, Option, none, some, length, ◌≡◌, ◌⊎◌, refl,
  ap, sym, ◌∙◌, Bool-cases, inl, inr, if◌then◌else◌,
}
use mathlib.Core.List.{append_assoc}
use tpn_worker.Proxy.Stream.{
  Conn, Io, ◌>>=◌, ◌>>◌, pure, bail, take_bytes, read_exact, read_u8, write_all,
}

-- A condition on the answer, where there is one.
abbrev pub Goes {ℓ κ} : {A : Type ℓ} → (A → Conn → Type κ) → Option A → Conn → Type κ
Goes Q none c = Unit
Goes Q (some a) c = Q a c

pub record Parses {ℓ κ} {A : Type ℓ} (P : Conn → Type κ) (m : Io A) (Q : A → Conn → Type κ)
    : Type (ℓ ⊔ κ) where
  pub at : (c : Conn) → P c → Goes Q (m c).0 (m c).1

module _ {ℓ κ} {A : Type ℓ} {P : Conn → Type κ} where
  pub Parses-bind {ι} :
      {B : Type ι} {m : Io A} {f : A → Io B} {R : B → Conn → Type κ} (Q : A → Conn → Type κ)
      → Parses P m Q
      → ((a : A) → Parses (Q a) (f a) R)
      → Parses P (m >>= f) R
  unfolding ◌>>=◌
  Parses-bind {B} {m} {f} {R} Q first next = record {
    at = λ c h. through (m c).0 (m c).1 (first.at c h);
  }
    where
      through :
          (r : Option A) (c : Conn)
          → Goes Q r c
          → let k : Io A = λ _. (r, c) in Goes R ((k >>= f) c).0 ((k >>= f) c).1
      through none c h = tt
      through (some a) c h = (next a).at c h

  pub Parses-then {ι} :
      {B : Type ι} {m : Io A} {k : Io B} {R : B → Conn → Type κ} (Q : Conn → Type κ)
      → Parses P m (λ _. Q)
      → Parses Q k R
      → Parses P (m >> k) R
  unfolding ◌>>◌
  Parses-then Q first next = Parses-bind (λ _. Q) first (λ _. next)

  pub Parses-pure :
      {Q : A → Conn → Type κ} (a : A) → ((c : Conn) → P c → Q a c) → Parses P (pure a) Q
  unfolding pure
  Parses-pure a h = record { at = h }

  pub Parses-bail : {Q : A → Conn → Type κ} → Parses P (bail {A = A}) Q
  unfolding bail
  Parses-bail = record { at = λ c h. tt }

  pub Parses-if :
      {Q : A → Conn → Type κ} {m k : Io A} (b : Bool)
      → (b ≡ true → Parses P m Q)
      → (b ≡ false → Parses P k Q)
      → Parses P (if b then m else k) Q
  Parses-if true m_branch k_branch = m_branch refl
  Parses-if false m_branch k_branch = k_branch refl

pub Goes-map {ℓ κ} :
    {A : Type ℓ} (Q R : A → Conn → Type κ) (r : Option A) (c : Conn)
    → ((a : A) → Q a c → R a c)
    → Goes Q r c
    → Goes R r c
Goes-map Q R none c f h = tt
Goes-map Q R (some a) c f h = f a h

pub Parses-weaken {ℓ κ} :
    {A : Type ℓ} {P : Conn → Type κ} {Q R : A → Conn → Type κ} {m : Io A}
    → Parses P m Q
    → ((a : A) (c : Conn) → Q a c → R a c)
    → Parses P m R
Parses-weaken {Q} {R} {m} t f = record {
  at = λ c h. Goes-map Q R (m c).0 (m c).1 (λ a. f a (m c).1) (t.at c h);
}

pub Parses-some {ℓ κ} :
    {A : Type ℓ} {P : Conn → Type κ} {Q : A → Conn → Type κ} {m : Io A} {a : A}
    → Parses P m Q
    → (c : Conn) → P c
    → (m c).0 ≡ some a
    → Q a (m c).1
Parses-some t c h e = rw e at (t.at c h)

-- A handler that ends after a last message does not go on.
pub Parses-last {ℓ} :
    {A : Type ℓ} {P : Conn → Type 0} {Q : A → Conn → Type 0} (m : Io (Unit {0}))
    → Parses P (m >> bail) Q
Parses-last {P} m =
    Parses-then (λ _. Unit {0}) (record { at = λ c h. ended (m c).0 (m c).1 }) Parses-bail
  where
    ended : (r : Option (Unit {0})) (c : Conn) → Goes {0, 0} {A = Unit {0}} (λ _ _. Unit {0}) r c
    ended none c = tt
    ended (some u) c = tt

-- A condition that does not depend on the stream.
pub Parses-given {ℓ} :
    {A : Type ℓ} {C : Type 0} {P : Conn → Type 0} {m : Io A} {Q : A → Conn → Type 0}
    → (C → Parses P m Q)
    → Parses (λ c. C × P c) m Q
Parses-given next = record { at = λ c h. (next h.0).at c h.1 }

pub take_bytes-cases :
    (n : ℕ) (bs : List ℕ)
    → (take_bytes n bs ≡ none)
      ⊎ ((xs rest : List ℕ) × (take_bytes n bs ≡ some (xs, rest))
          × (length xs ≡ n)
          × (bs ≡ xs ++ rest))
unfolding take_bytes
take_bytes-cases zero bs = inr ([], bs, refl, refl, refl)
take_bytes-cases (suc n) [] = inl refl
take_bytes-cases (suc n) (b ∷ bs) = elim (take_bytes-cases n bs) [
  | inl none_left ↦ inl (rw none_left refl)
  | inr (xs, rest, found, count, parts) ↦
      inr (b ∷ xs, rest, rw found refl, ap suc count, ap (λ l. b ∷ l) parts)
]

pub take_bytes-append : (xs rest : List ℕ) → take_bytes (length xs) (xs ++ rest) ≡ some (xs, rest)
unfolding take_bytes
take_bytes-append [] rest = refl
take_bytes-append (x ∷ xs) rest = rw (take_bytes-append xs rest) refl

-- `bytes` have been read of `input`, and `out` sent.
abbrev pub Read : List ℕ → List ℕ → List (List ℕ) → Conn → Type 0
Read input bytes out c = (input ≡ bytes ++ c.input) × (c.sent ≡ out)

module _ {input : List ℕ} (bytes : List ℕ) {out : List (List ℕ)} where
  pub Parses-read_u8 : Parses (Read input bytes out) read_u8 (λ b. Read input (bytes ++ b ∷ []) out)
  unfolding read_u8
  Parses-read_u8 = record { at = λ c h. first c.input c.sent h.0 h.1 }
    where
      first :
          (bs : List ℕ) (sent : List (List ℕ))
          → input ≡ bytes ++ bs
          → sent ≡ out
          → let c : Conn = record { input = bs; sent = sent } in
            Goes (λ b. Read input (bytes ++ b ∷ []) out) (read_u8 c).0 (read_u8 c).1
      first [] sent h e = tt
      first (b ∷ bs) sent h e = (h ∙ sym (append_assoc bytes (b ∷ []) bs), e)

  pub Parses-read_exact :
      (n : ℕ)
      → Parses
          (Read input bytes out)
          (read_exact n)
          (λ xs c. (length xs ≡ n) × Read input (bytes ++ xs) out c)
  unfolding read_exact
  Parses-read_exact n = record {
    at = λ c h. elim (take_bytes-cases n c.input) [
      | inl short ↦ rw (short, read_exact) tt
      | inr (xs, rest, found, count, parts) ↦
          rw (found, read_exact)
            (count, (h.0 ∙ ap (λ l. bytes ++ l) parts ∙ sym (append_assoc bytes xs rest), h.1))
    ];
  }

  pub Parses-write_all :
      (fails : ℕ → Bool) (message : List ℕ)
      → Parses
          (Read input bytes out)
          (write_all fails message)
          (λ _. Read input bytes (message ∷ out))
  unfolding write_all
  Parses-write_all fails message = record {
    at = λ c h. elim (Bool-cases (fails (length c.sent))) [
      | inl broken ↦ rw broken tt
      | inr works ↦ rw works (h.0, ap (λ l. message ∷ l) h.1)
    ];
  }

-- Bytes after their count.
pub Parses-block {ℓ} :
    {input : List ℕ} (bytes : List ℕ) {out : List (List ℕ)} {A : Type ℓ} {f : List ℕ → Io A}
    {Q : A → Conn → Type 0}
    → ((xs : List ℕ) → Parses (Read input (bytes ++ length xs ∷ xs) out) (f xs) Q)
    → Parses (Read input bytes out) (read_u8 >>= λ n. read_exact n >>= f) Q
Parses-block {input} bytes {out} next =
    Parses-bind (λ n. Read input (bytes ++ n ∷ []) out) (Parses-read_u8 bytes)
      λ n.
        Parses-bind (λ xs c. (length xs ≡ n) × Read input ((bytes ++ n ∷ []) ++ xs) out c)
          (Parses-read_exact (bytes ++ n ∷ []) n)
          (λ xs. Parses-given λ count. rw (append_assoc bytes (n ∷ []) xs, sym count) (next xs))

-- Runs, step by step.
module _ {ℓ κ} {A : Type ℓ} {B : Type κ} (m : Io A) where
  bound : (f : A → Io B) → Option A × Conn → Option B × Conn
  bound f p = elim p.0 [ none ↦ (none, p.1) | some a ↦ f a p.1 ]

  pub bind-run :
      (f : A → Io B) {c c' : Conn} {r : Option B × Conn} {a : A}
      → m c ≡ (some a, c')
      → f a c' ≡ r
      → (m >>= f) c ≡ r
  unfolding ◌>>=◌ bound
  bind-run f e next = ap (bound f) e ∙ next

  pub bind-end : (f : A → Io B) {c c' : Conn} → m c ≡ (none, c') → (m >>= f) c ≡ (none, c')
  unfolding ◌>>=◌ bound
  bind-end f e = ap (bound f) e

  pub then-run :
      (k : Io B) {c c' : Conn} {r : Option B × Conn} {a : A}
      → m c ≡ (some a, c')
      → k c' ≡ r
      → (m >> k) c ≡ r
  unfolding ◌>>◌
  then-run k e next = bind-run (λ _. k) e next

  pub then-end : (k : Io B) {c c' : Conn} → m c ≡ (none, c') → (m >> k) c ≡ (none, c')
  unfolding ◌>>◌
  then-end k e = bind-end (λ _. k) e

pub read_exact-run :
    (xs rest : List ℕ) (sent : List (List ℕ))
    → read_exact (length xs) (record { input = xs ++ rest; sent = sent })
      ≡ (some xs, record { input = rest; sent = sent })
unfolding read_exact
read_exact-run xs rest sent = rw (take_bytes-append xs rest, read_exact) refl

pub write_all-run :
    (fails : ℕ → Bool) (message : List ℕ) (c : Conn)
    → fails (length c.sent) ≡ false
    → write_all fails message c ≡ (some tt, record c { sent = message ∷ c.sent })
unfolding write_all
write_all-run fails message c works = rw works refl
