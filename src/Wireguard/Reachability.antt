-- ===== src/Wireguard/Reachability.antt =====
-- wireguard/server.rs: whether the public UDP port is reachable, and the wait for it at the start. A
-- probe is a run of `nc`, whose output is read for the word `succeeded`.
pub mod Wait
use tpn_worker.Base.{
  ℕ, zero, suc, ◌/◌, ltb, Bool, true, false, ◌||◌, Text, codes, starts_with, trim, is_empty, [],
  ◌∷◌, ◌++◌, Option, none, some, if◌then◌else◌,
}
use tpn_worker.World.{Env, M, ◌>>=◌, pure, probe}
use tpn_worker.Wireguard.Server.{Server}

-- `str::contains`
unfoldable pub contains : Text → Text → Bool
contains p [] = starts_with p []
contains p (c ∷ s) = starts_with p (c ∷ s) || contains p s

-- What the output of a probe says; it may have failed to run.
unfoldable pub says_reachable : Option (Text × Text) → Bool
says_reachable none = false
says_reachable (some (stdout, stderr)) = contains (codes "succeeded") (stdout ++ (b' ' ∷ stderr))

abbrev pub has_host : Server → Bool
has_host s = if is_empty (trim s.endpoint_host) then false else true

module _ (env : Env) (server : Server) where
  unfoldable pub check_public_udp_reachability : M Bool
  check_public_udp_reachability =
      if has_host server then (do output ← probe env; pure (says_reachable output)) else pure false

  unfoldable pub public_udp_reachable : M Bool
  public_udp_reachable = check_public_udp_reachability

-- `while start.elapsed() < max_wait { if reachable { return true }; sleep(5s) }; false`, from a
-- round on: what the watch shows and what a probe says at each round are given. `none` means that
-- the fuel ran out.
unfoldable pub wait_rounds : (ℕ → ℕ) → (ℕ → Bool) → ℕ → ℕ → ℕ → Option Bool
wait_rounds elapsed reachable max_wait zero round = none
wait_rounds elapsed reachable max_wait (suc fuel) round =
    let rest = wait_rounds elapsed reachable max_wait fuel (suc round) in
    if ltb (elapsed round) max_wait
    then (if reachable round then some true else rest)
    else some false

-- A round for every five seconds, and two.
abbrev pub rounds_allowed : ℕ → ℕ
rounds_allowed max_wait = suc (suc (max_wait / 5000))

-- The wait of a server, from what each probe prints.
unfoldable pub wait_for_public_udp_reachability :
    Server → (ℕ → ℕ) → (ℕ → Option (Text × Text)) → ℕ → Option Bool
wait_for_public_udp_reachability server elapsed outputs max_wait =
    wait_rounds elapsed (λ k. if has_host server then says_reachable (outputs k) else false)
      max_wait (rounds_allowed max_wait) 0
