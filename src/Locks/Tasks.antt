-- ===== src/Locks/Tasks.antt =====
-- sync/locks.rs: the manager of the named mutexes, and the tasks that call `with_lock` of it, whose
-- steps come in any order. A mutex is tokio's, which is known by a number and is locked or not.
pub mod Exclusive
pub mod Invariant
pub mod Steps
use tpn_worker.Base.{
  ℕ, suc, Bool, true, false, ◌==◌, Text, eq_text, List, [], ◌∷◌, Option, none, some, if◌then◌else◌,
  ◌≡◌,
}

-- The map from names to mutexes, the mutexes that are locked, and the number of the next.
pub record Manager : Type 0 where
  pub locks : List (Text × ℕ)
  pub locked : ℕ → Bool
  pub next : ℕ

-- `NamedLockManager::new`
abbrev pub new_manager : Manager
new_manager = record { locks = []; locked = λ m. false; next = 0 }

unfoldable pub find_lock : Text → List (Text × ℕ) → Option ℕ
find_lock n [] = none
find_lock n ((k, m) ∷ locks) = if eq_text k n then some m else find_lock n locks

unfoldable pub set_locked : ℕ → Bool → Manager → Manager
set_locked m b g = record g { locked = λ k. if m == k then b else g.locked k }

-- A new mutex is not locked.
unfoldable pub or_insert : Option ℕ → Text → Manager → ℕ × Manager
or_insert (some m) n g = (m, g)
or_insert none n g = (
  g.next,
  record (set_locked g.next false g) { locks = (n, g.next) ∷ g.locks; next = suc g.next },
)

unfoldable pub get_lock : Text → Manager → ℕ × Manager
get_lock n g = or_insert (find_lock n g.locks) n g

-- `try_lock` on the name's mutex, which the guard unlocks again at once.
unfoldable pub is_locked : Text → Manager → Bool
is_locked n g = elim (find_lock n g.locks) [ none ↦ false | some m ↦ g.locked m ]

-- A task is outside of `with_lock`, waits for the mutex of a name, or runs `f` with its guard.
pub data Phase : Type 0 where
  outside : Phase
  waiting running : Text → ℕ → Phase

-- The manager, and the tasks by number.
pub record System : Type 0 where
  pub manager : Manager
  pub tasks : ℕ → Phase

abbrev pub put_phase : ℕ → Phase → (ℕ → Phase) → ℕ → Phase
put_phase i p tasks j = if i == j then p else tasks j

-- `self.get_lock(name)`, after which the task waits.
unfoldable pub call_lock : ℕ → Text → System → System
call_lock i n s =
    let (m, g) = get_lock n s.manager in
    record { manager = g; tasks = put_phase i (waiting n m) s.tasks }

-- `mutex.lock()` answers: the mutex is locked, and `f().await` begins.
unfoldable pub take_lock : ℕ → Text → ℕ → System → System
take_lock i n m s = record {
  manager = set_locked m true s.manager;
  tasks = put_phase i (running n m) s.tasks;
}

-- `f` is done, and `drop(guard)` unlocks the mutex.
unfoldable pub drop_guard : ℕ → ℕ → System → System
drop_guard i m s = record {
  manager = set_locked m false s.manager;
  tasks = put_phase i outside s.tasks;
}

-- The steps of `with_lock`. What tokio promises of a mutex is that `lock` answers only while it is
-- not locked.
pub data Step (s : System) : System → Type 0 where
  call : (i : ℕ) (n : Text) → s.tasks i ≡ outside → Step s (call_lock i n s)
  lock :
      (i : ℕ) (n : Text) (m : ℕ)
      → s.tasks i ≡ waiting n m
      → s.manager.locked m ≡ false
      → Step s (take_lock i n m s)
  time_out :
      (i : ℕ) (n : Text) (m : ℕ)
      → s.tasks i ≡ waiting n m
      → Step s (record s { tasks = put_phase i outside s.tasks })
  finish : (i : ℕ) (n : Text) (m : ℕ) → s.tasks i ≡ running n m → Step s (drop_guard i m s)

-- No task has called yet.
abbrev pub start : System
start = record { manager = new_manager; tasks = λ i. outside }

pub data Reach : System → Type 0 where
  here : Reach start
  next : {s t : System} → Reach s → Step s t → Reach t
