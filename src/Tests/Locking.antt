-- ===== src/Tests/Locking.antt =====
-- Tasks that want one lock at the same time.
use tpn_worker.Base.{true, codes, eq_text, Text, ◌≡◌, refl}
use tpn_worker.Locks.Tasks.{
  find_lock, set_locked, or_insert, get_lock, is_locked, System, call_lock, take_lock, drop_guard,
  start,
}

abbrev name : Text
name = codes "a"

abbrev two_wait : System
two_wait = call_lock 1 name (call_lock 0 name start)

abbrev first_runs : System
first_runs = take_lock 0 name 0 two_wait

-- The first task is done, and the second one has the lock.
abbrev second_runs : System
second_runs = take_lock 1 name 0 (drop_guard 0 0 first_runs)

is_taken : is_locked name second_runs.manager ≡ true
unfolding is_locked call_lock get_lock or_insert find_lock set_locked take_lock drop_guard eq_text
is_taken = refl
