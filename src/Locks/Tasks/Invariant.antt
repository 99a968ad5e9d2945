-- ===== src/Locks/Tasks/Invariant.antt =====
-- What holds of the tasks and the mutexes at every time, and of one task that changes.
use tpn_worker.Base.{
  ℕ, ◌<◌, true, ◌==◌, ==_iff, Text, eq_text, eq_text→eq, eq_text_refl, List, ◌∷◌, none, some, ◌≡◌,
  ◌≢◌, ◌⊎◌, refl, sym, ap, ◌∙◌, arith, inl, inr, Bool-cases,
}
use tpn_worker.Locks.Tasks.{find_lock, is_locked, Phase, waiting, running, System, put_phase, start}

-- A task has asked for a name's mutex, and waits for it or runs under it.
abbrev pub Knows : Phase → Text → ℕ → Type 0
Knows p n m = (p ≡ waiting n m) ⊎ (p ≡ running n m)

-- The names' mutexes are made once and are different ones, the tasks have those of their names, and
-- a mutex is locked while one task runs under it.
pub record Inv (s : System) : Type 0 where
  pub made : (n : Text) (m : ℕ) → find_lock n s.manager.locks ≡ some m → m < s.manager.next
  pub apart :
      (n k : Text) (m : ℕ)
      → find_lock n s.manager.locks ≡ some m
      → find_lock k s.manager.locks ≡ some m
      → n ≡ k
  pub known :
      (i : ℕ) (n : Text) (m : ℕ) → Knows (s.tasks i) n m → find_lock n s.manager.locks ≡ some m
  pub held : (i : ℕ) (n : Text) (m : ℕ) → s.tasks i ≡ running n m → s.manager.locked m ≡ true
  pub alone :
      (i j : ℕ) (n k : Text) (m : ℕ) → s.tasks i ≡ running n m → s.tasks j ≡ running k m → i ≡ j
  pub holder :
      (m : ℕ) → s.manager.locked m ≡ true → (i : ℕ) × (n : Text) × (s.tasks i ≡ running n m)

pub start-Inv : Inv start
unfolding find_lock
start-Inv = record {
  made = λ n m e. cc e;
  apart = λ n k m e d. cc e;
  known = λ i n m h. elim h [ inl e ↦ cc e | inr e ↦ cc e ];
  held = λ i n m e. cc e;
  alone = λ i j n k m e d. cc e;
  holder = λ m e. cc e;
}

-- The phase of a task after one of them has changed.
pub put-is :
    (i j : ℕ) (p : Phase) (tasks : ℕ → Phase) (q : Phase)
    → put_phase i p tasks j ≡ q
    → ((i ≡ j) × (p ≡ q)) ⊎ ((i ≢ j) × (tasks j ≡ q))
put-is i j p tasks q e = elim (Bool-cases (i == j)) [
  | inl same ↦ inl ((==_iff i j).0 same, rw same at e)
  | inr other ↦ inr (ground arith, rw other at e)
]

pub put_self : (i : ℕ) (p : Phase) (tasks : ℕ → Phase) → put_phase i p tasks i ≡ p
put_self i p tasks = ground arith

pub put_other : (i j : ℕ) (p : Phase) (tasks : ℕ → Phase) → i ≢ j → put_phase i p tasks j ≡ tasks j
put_other i j p tasks other = ground arith

pub find-new :
    (n k : Text) (x m : ℕ) (locks : List (Text × ℕ))
    → find_lock k ((n, x) ∷ locks) ≡ some m
    → ((n ≡ k) × (x ≡ m)) ⊎ (find_lock k locks ≡ some m)
unfolding find_lock
find-new n k x m locks e = elim (Bool-cases (eq_text n k)) [
  | inl same ↦ let found : some x ≡ some m = rw same at e in inl (eq_text→eq n k same, cc found)
  | inr other ↦ inr (rw other at e)
]

pub find-old :
    (n k : Text) (x m : ℕ) (locks : List (Text × ℕ))
    → find_lock n locks ≡ none
    → find_lock k locks ≡ some m
    → find_lock k ((n, x) ∷ locks) ≡ some m
unfolding find_lock
find-old n k x m locks absent found = elim (Bool-cases (eq_text n k)) [
  | inl same ↦
      let e = ap (λ (t : Text). find_lock t locks) (eq_text→eq n k same) in cc (e, absent, found)
  | inr other ↦ rw other found
]

pub find_first :
    (n : Text) (x : ℕ) (locks : List (Text × ℕ)) → find_lock n ((n, x) ∷ locks) ≡ some x
unfolding find_lock
find_first n x locks = rw (eq_text_refl n) refl

Knows-same : (p : Phase) (n k : Text) (m l : ℕ) → Knows p n m → Knows p k l → (n ≡ k) × (m ≡ l)
Knows-same p n k m l (inl w) (inl v) = (cc (w, v), cc (w, v))
Knows-same p n k m l (inl w) (inr v) = absurd (cc (w, v))
Knows-same p n k m l (inr w) (inl v) = absurd (cc (w, v))
Knows-same p n k m l (inr w) (inr v) = (cc (w, v), cc (w, v))

-- A task that has the mutex of its name.
pub found_as :
    (p : Phase) (n : Text) (m : ℕ) (locks : List (Text × ℕ))
    → Knows p n m
    → find_lock n locks ≡ some m
    → (k : Text) (l : ℕ) → Knows p k l
    → find_lock k locks ≡ some l
found_as p n m locks is found k l knows =
    let (name, mutex) = Knows-same p n k m l is knows in
    ap (λ (t : Text). find_lock t locks) (sym name) ∙ found ∙ ap some mutex

module _ (s : System) (h : Inv s) (i : ℕ) where
  -- What the tasks know after one of them has changed.
  pub known_put :
      (p : Phase) (locks : List (Text × ℕ))
      → ((n : Text) (m : ℕ) → Knows p n m → find_lock n locks ≡ some m)
      → ((n : Text) (m : ℕ) → find_lock n s.manager.locks ≡ some m → find_lock n locks ≡ some m)
      → (j : ℕ) (n : Text) (m : ℕ) → Knows (put_phase i p s.tasks j) n m
      → find_lock n locks ≡ some m
  known_put p locks new old j n m (inl e) = elim (put-is i j p s.tasks (waiting n m) e) [
    | inl (same, now) ↦ new n m (inl now)
    | inr (other, before) ↦ old n m (h.known j n m (inl before))
  ]
  known_put p locks new old j n m (inr e) = elim (put-is i j p s.tasks (running n m) e) [
    | inl (same, now) ↦ new n m (inr now)
    | inr (other, before) ↦ old n m (h.known j n m (inr before))
  ]

  -- A task that runs after a step of another that does not run then.
  pub ran :
      (p : Phase)
      → ((n : Text) (m : ℕ) → p ≢ running n m)
      → (j : ℕ) (n : Text) (m : ℕ) → put_phase i p s.tasks j ≡ running n m
      → (i ≢ j) × (s.tasks j ≡ running n m)
  ran p free j n m e = elim (put-is i j p s.tasks (running n m) e) [
    | inl (same, now) ↦ absurd (free n m now)
    | inr before ↦ before
  ]

  pub alone_put :
      (p : Phase)
      → ((n : Text) (m : ℕ) → p ≢ running n m)
      → (a b : ℕ) (n k : Text) (m : ℕ) → put_phase i p s.tasks a ≡ running n m
      → put_phase i p s.tasks b ≡ running k m
      → a ≡ b
  alone_put p free a b n k m at_a at_b =
      h.alone a b n k m (ran p free a n m at_a).1 (ran p free b k m at_b).1

  -- A holder that is another task still runs.
  pub holder_put :
      (p : Phase) (m : ℕ)
      → ((n : Text) → s.tasks i ≢ running n m)
      → s.manager.locked m ≡ true
      → (j : ℕ) × (n : Text) × (put_phase i p s.tasks j ≡ running n m)
  holder_put p m not_me is_locked =
      let (j, n, r) = h.holder m is_locked in
      (j, n, put_other i j p s.tasks (λ same. not_me n (ap s.tasks same ∙ r)) ∙ r)
