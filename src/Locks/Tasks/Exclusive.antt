-- ===== src/Locks/Tasks/Exclusive.antt =====
-- The tasks that run under one name.
use tpn_worker.Base.{ℕ, Text, ◌≡◌}
use tpn_worker.Locks.Tasks.{running, System}

abbrev RunsUnder : Text → System → Type 0
RunsUnder n s = (i : ℕ) × (m : ℕ) × (s.tasks i ≡ running n m)
