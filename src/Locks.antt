-- ===== src/Locks.antt =====
-- sync/locks.rs: the named mutexes. An operation sees only that the lock may not be had in
-- time, and that it runs alone.
pub mod Tasks
use tpn_worker.Base.{inl, inr, Bool-cases, if◌then◌else◌}
use tpn_worker.Error.{AppError, internal, lock_timeout, err}
use tpn_worker.World.{World, M, Env, bump}
use tpn_worker.World.Triple.{Triple, Stable}

-- `with_lock`: `f` runs once the lock is had, or the wait ends by the timeout.
unfoldable pub with_lock {ℓ} : {A : Type ℓ} → Env → M A → M A
with_lock env f w = if env.fails w.calls then (err (internal lock_timeout), bump w) else f (bump w)

pub Triple-with_lock {ℓ κ} :
    {A : Type ℓ} {P : World → Type κ} {E : AppError → World → Type κ} {Q : A → World → Type κ}
    (env : Env) {m : M A}
    → Stable P
    → ((w : World) → P w → E (internal lock_timeout) (bump w))
    → Triple P m Q E
    → Triple P (with_lock env m) Q E
unfolding with_lock
Triple-with_lock env stable failure t = record {
  at = λ w h. elim (Bool-cases (env.fails w.calls)) [
    | inl late ↦ rw late (failure w h)
    | inr had ↦ rw had (t.at (bump w) (stable w h))
  ];
}
