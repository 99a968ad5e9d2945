-- ===== src/World/Triple.antt =====
-- Conditions before and after an operation of `M`, and a rule for each way to build one.
use tpn_worker.Base.{
  Bool, true, false, ◌≡◌, refl, inl, inr, Bool-cases, if◌then◌else◌, ℤ, ℕ, List, [], ◌∷◌, Option,
  none, some, sym, ap,
}
use mathlib.Core.Path.{subst}
use tpn_worker.Error.{AppError, Result, ok, err}
use tpn_worker.World.{
  World, Env, M, ◌>>=◌, ◌>>◌, pure, raise, ok_or, bump, now_ms, call, draw, for_each, ignore, fetch,
  execute, catch, kernel_call,
}

-- `Q` after an answer, `E` after an error.
abbrev pub Outcome {ℓ κ} :
    {A : Type ℓ} → (A → World → Type κ) → (AppError → World → Type κ) → Result A → World → Type κ
Outcome Q E (ok a) w = Q a w
Outcome Q E (err e) w = E e w

pub record Triple {ℓ κ} {A : Type ℓ} (P : World → Type κ) (m : M A) (Q : A → World → Type κ)
    (E : AppError → World → Type κ) : Type (ℓ ⊔ κ) where
  pub at : (w : World) → P w → Outcome Q E (m w).0 (m w).1

-- A condition that the count of outside events does not touch.
abbrev pub Stable {κ} : (World → Type κ) → Type κ
Stable P = (w : World) → P w → P (bump w)

module _ {ℓ κ} {A : Type ℓ} where
  Outcome-bind {ι} :
      {B : Type ι} (Q : A → World → Type κ) (f : A → M B) (R : B → World → Type κ)
      (E : AppError → World → Type κ)
      → ((a : A) (w : World) → Q a w → Outcome R E (f a w).0 (f a w).1)
      → (r : Result A) (w : World) → Outcome Q E r w
      → let m : M A = λ _. (r, w) in Outcome R E ((m >>= f) w).0 ((m >>= f) w).1
  unfolding ◌>>=◌
  Outcome-bind Q f R E next (ok a) w h = next a w h
  Outcome-bind Q f R E next (err e) w h = h

  pub Triple-bind {ι} :
      {B : Type ι} {P : World → Type κ} {E : AppError → World → Type κ} {m : M A} {f : A → M B}
      {R : B → World → Type κ} (Q : A → World → Type κ)
      → Triple P m Q E
      → ((a : A) → Triple (Q a) (f a) R E)
      → Triple P (m >>= f) R E
  unfolding ◌>>=◌
  Triple-bind {E} {m} {f} {R} Q first next = record {
    at = λ w h. Outcome-bind Q f R E (λ a. (next a).at) (m w).0 (m w).1 (first.at w h);
  }

  pub Triple-pure :
      {P : World → Type κ} {E : AppError → World → Type κ} {Q : A → World → Type κ} (a : A)
      → ((w : World) → P w → Q a w)
      → Triple P (pure a) Q E
  unfolding pure
  Triple-pure a h = record { at = h }

  pub Triple-raise :
      {P : World → Type κ} {E : AppError → World → Type κ} {Q : A → World → Type κ} (e : AppError)
      → ((w : World) → P w → E e w)
      → Triple P (raise {A = A} e) Q E
  unfolding raise
  Triple-raise e h = record { at = h }

  pub Triple-ok_or :
      {P : World → Type κ} {E : AppError → World → Type κ} {Q : A → World → Type κ} (o : Option A)
      (e : AppError)
      → ((a : A) (w : World) → o ≡ some a → P w → Q a w)
      → ((w : World) → o ≡ none → P w → E e w)
      → Triple P (ok_or o e) Q E
  unfolding ok_or pure raise
  Triple-ok_or none e found missing = record { at = λ w h. missing w refl h }
  Triple-ok_or (some a) e found missing = record { at = λ w h. found a w refl h }

  -- An operation whose answer is known.
  pub Triple-known {ι} :
      {B : Type ι} {P : World → Type κ} {E : AppError → World → Type κ} {m : M A}
      {R : B → World → Type κ} (f : A → M B) (a : A) (Q : World → Type κ)
      → ((w : World) → P w → ((m w).0 ≡ ok a) × Q (m w).1)
      → Triple Q (f a) R E
      → Triple P (m >>= f) R E
  unfolding ◌>>=◌
  Triple-known {E} {m} {R} f a Q first next = record {
    at = λ w h. known (m w).0 (m w).1 (first w h).0 (next.at (m w).1 (first w h).1);
  }
    where
      known :
          (r : Result A) (v : World)
          → r ≡ ok a
          → Outcome R E (f a v).0 (f a v).1
          → let k : M A = λ _. (r, v) in Outcome R E ((k >>= f) v).0 ((k >>= f) v).1
      known r v e t =
          subst
            (λ (q : Result A).
              let k : M A = λ _. (q, v) in Outcome R E ((k >>= f) v).0 ((k >>= f) v).1)
            (sym e) t

  -- A value that is known to be there.
  pub Triple-some {ι} :
      {B : Type ι} {P : World → Type κ} {E : AppError → World → Type κ} {R : B → World → Type κ}
      {o : Option A} {a : A} (e : AppError) (f : A → M B)
      → o ≡ some a
      → Triple P (f a) R E
      → Triple P (ok_or o e >>= f) R E
  unfolding ok_or pure ◌>>=◌
  Triple-some {P} {E} {R} e f there t =
      subst (λ (o : Option A). Triple P (ok_or o e >>= f) R E) (sym there) (record { at = t.at })

  pub Triple-call :
      {P : World → Type κ} {E : AppError → World → Type κ} {Q : A → World → Type κ} (env : Env)
      (e : AppError) (f : World → A × World)
      → ((w : World) → P w → Q (f w).0 (bump (f w).1))
      → ((w : World) → P w → E e (bump w))
      → Triple P (call env e f) Q E
  unfolding call
  Triple-call {P} {E} {Q} env e f answer failure = record {
    at = λ w h. elim (Bool-cases (env.fails w.calls)) [
      | inl fails ↦ rw fails (failure w h)
      | inr works ↦ rw works (answer w h)
    ];
  }

  pub Triple-kernel_call :
      {P : World → Type κ} {E : AppError → World → Type κ} {Q : A → World → Type κ} (env : Env)
      (e : AppError) (f : World → A × World)
      → ((w : World) → P w → Q (f w).0 (bump (f w).1))
      → ((w : World) → P w → E e (bump w))
      → Triple P (kernel_call env e f) Q E
  unfolding kernel_call
  Triple-kernel_call env e f answer failure = record {
    at = λ w h. elim (Bool-cases (env.kernel_fails w.calls)) [
      | inl fails ↦ rw fails (failure w h)
      | inr works ↦ rw works (answer w h)
    ];
  }

  -- A call where statements do not fail.
  pub Triple-call_works :
      {P : World → Type κ} {E : AppError → World → Type κ} {Q : A → World → Type κ} (env : Env)
      (e : AppError) (f : World → A × World)
      → ((k : ℕ) → env.fails k ≡ false)
      → ((w : World) → P w → Q (f w).0 (bump (f w).1))
      → Triple P (call env e f) Q E
  unfolding call
  Triple-call_works env e f works answer = record { at = λ w h. rw (works w.calls) (answer w h) }

  pub Triple-kernel_works :
      {P : World → Type κ} {E : AppError → World → Type κ} {Q : A → World → Type κ} (env : Env)
      (e : AppError) (f : World → A × World)
      → ((k : ℕ) → env.kernel_fails k ≡ false)
      → ((w : World) → P w → Q (f w).0 (bump (f w).1))
      → Triple P (kernel_call env e f) Q E
  unfolding kernel_call
  Triple-kernel_works env e f works answer = record { at = λ w h. rw (works w.calls) (answer w h) }

  pub Triple-catch :
      {P : World → Type κ} {E : AppError → World → Type κ} {Q : A → World → Type κ} {m : M A}
      {handler : AppError → M A} (F : AppError → World → Type κ)
      → Triple P m Q F
      → ((e : AppError) → Triple (F e) (handler e) Q E)
      → Triple P (catch m handler) Q E
  unfolding catch
  Triple-catch {E} {Q} {m} {handler} F body handled = record {
    at = λ w h. caught (m w).0 (m w).1 (body.at w h);
  }
    where
      caught :
          (r : Result A) (w : World)
          → Outcome Q F r w
          → let k : M A = λ _. (r, w) in Outcome Q E (catch k handler w).0 (catch k handler w).1
      caught (ok a) w h = h
      caught (err e) w h = (handled e).at w h

  pub Triple-then {ι} :
      {B : Type ι} {P : World → Type κ} {E : AppError → World → Type κ} {m : M A} {k : M B}
      {R : B → World → Type κ} (Q : World → Type κ)
      → Triple P m (λ _. Q) E
      → Triple Q k R E
      → Triple P (m >> k) R E
  unfolding ◌>>◌
  Triple-then Q first next = Triple-bind (λ _. Q) first (λ _. next)

  pub Triple-fetch :
      {P : World → Type κ} {E : AppError → World → Type κ} {Q : A → World → Type κ} (env : Env)
      (f : World → A)
      → ((w : World) → P w → Q (f w) (bump w))
      → ((w : World) → P w → E AppError.db (bump w))
      → Triple P (fetch env f) Q E
  unfolding fetch
  Triple-fetch env f = Triple-call env AppError.db (λ w. (f w, w))

  pub Triple-ignore :
      {P Q : World → Type κ} {E : AppError → World → Type κ} {m : M A}
      → Triple P m (λ _. Q) (λ _. Q)
      → Triple P (ignore m) (λ _. Q) E
  unfolding ignore
  Triple-ignore {Q} {m} t = record { at = λ w h. forget (m w).0 (m w).1 (t.at w h) }
    where
      forget : (r : Result A) (w : World) → Outcome (λ _. Q) (λ _. Q) r w → Q w
      forget (ok a) w h = h
      forget (err e) w h = h

  pub Triple-if :
      {P : World → Type κ} {E : AppError → World → Type κ} {Q : A → World → Type κ} {m k : M A}
      (b : Bool)
      → (b ≡ true → Triple P m Q E)
      → (b ≡ false → Triple P k Q E)
      → Triple P (if b then m else k) Q E
  Triple-if true yes_branch no_branch = yes_branch refl
  Triple-if false yes_branch no_branch = no_branch refl

  pub Triple-weaken :
      {P P' : World → Type κ} {E E' : AppError → World → Type κ} {Q Q' : A → World → Type κ}
      {m : M A}
      → Triple P m Q E
      → ((w : World) → P' w → P w)
      → ((a : A) (w : World) → Q a w → Q' a w)
      → ((e : AppError) (w : World) → E e w → E' e w)
      → Triple P' m Q' E'
  Triple-weaken {E} {E'} {Q} {Q'} {m} t before after failed = record {
    at = λ w h. weaken (m w).0 (m w).1 (t.at w (before w h));
  }
    where
      weaken : (r : Result A) (w : World) → Outcome Q E r w → Outcome Q' E' r w
      weaken (ok a) w h = after a w h
      weaken (err e) w h = failed e w h

module _ {κ} {P : World → Type κ} {E : AppError → World → Type κ} (env : Env) where
  pub Triple-now :
      {Q : ℤ → World → Type κ}
      → ((w : World) → P w → Q (env.clock w.calls) (bump w))
      → Triple P (now_ms env) Q E
  unfolding now_ms
  Triple-now h = record { at = h }

  pub Triple-execute :
      {Q : World → Type κ} (f : World → World)
      → ((w : World) → P w → Q (bump (f w)))
      → ((w : World) → P w → E AppError.db (bump w))
      → Triple P (execute env f) (λ _. Q) E
  unfolding execute
  Triple-execute f = Triple-call env AppError.db (λ w. (tt, f w))

  pub Triple-execute_works :
      {Q : World → Type κ} (f : World → World)
      → ((k : ℕ) → env.fails k ≡ false)
      → ((w : World) → P w → Q (bump (f w)))
      → Triple P (execute env f) (λ _. Q) E
  unfolding execute
  Triple-execute_works f = Triple-call_works env AppError.db (λ w. (tt, f w))

  pub Triple-draw :
      {Q : ℕ → World → Type κ}
      → ((w : World) → P w → Q (env.draws w.calls) (bump w))
      → Triple P (draw env) Q E
  unfolding draw
  Triple-draw h = record { at = h }

pub Triple-for_each {ℓ κ} :
    {A : Type ℓ} {I : World → Type κ} {E : AppError → World → Type κ} (f : A → M (Unit {0}))
    (xs : List A)
    → ((a : A) → Triple I (f a) (λ _. I) E)
    → Triple I (for_each xs f) (λ _. I) E
unfolding for_each ◌>>◌
Triple-for_each f [] step = Triple-pure tt (λ w h. h)
Triple-for_each {I} f (x ∷ xs) step = Triple-bind (λ _. I) (step x) (λ _. Triple-for_each f xs step)

module _ {ℓ κ} {A : Type ℓ} {P : World → Type κ} {m : M A} where
  -- The state after an operation that keeps a condition whether or not it fails.
  pub Triple-state :
      {Q : World → Type κ} → Triple P m (λ _. Q) (λ _. Q) → (w : World) → P w → Q (m w).1
  Triple-state {Q} t w h = state (m w).0 (m w).1 (t.at w h)
    where
      state : (r : Result A) (w' : World) → Outcome (λ _. Q) (λ _. Q) r w' → Q w'
      state (ok a) w' h = h
      state (err e) w' h = h

  module _ {Q : A → World → Type κ} {E : AppError → World → Type κ} where
    pub Triple-answer : {a : A} → Triple P m Q E → (w : World) → P w → (m w).0 ≡ ok a → Q a (m w).1
    Triple-answer t w h e = rw e at (t.at w h)

    pub Triple-error :
        {x : AppError} → Triple P m Q E → (w : World) → P w → (m w).0 ≡ err x → E x (m w).1
    Triple-error t w h e = rw e at (t.at w h)

-- An operation that does not fail, and answers one value.
pub Triple-total :
    {A : Type 0} {P Q : World → Type 0} {m : M A} {x : A}
    → Triple P m (λ a w. (a ≡ x) × Q w) (λ _ _. ⊥)
    → (w : World) → P w
    → ((m w).0 ≡ ok x) × Q (m w).1
Triple-total {A} {Q} {m} {x} t w h = total (m w).0 (m w).1 (t.at w h)
  where
    total :
        (r : Result A) (v : World)
        → Outcome (λ a w. (a ≡ x) × Q w) (λ _ _. ⊥) r v
        → (r ≡ ok x) × Q v
    total (ok a) v k = (ap ok k.0, k.1)
    total (err e) v k = elim k [ ]
