-- ===== src/Tests/Registrations.antt =====
-- Registrations with the mining pool, and the wait for the public port.
use tpn_worker.Base.{
  ℕ, zero, suc, ◌*◌, ◌≤◌, ◌<◌, Bool, true, false, Text, codes, [], ◌∷◌, Option, none, some, ◌≡◌,
  ◌↔◌, ◌⊎◌, refl, arith, eq_text, starts_with, strip_prefix, trim, trim_start,
}
use tpn_worker.Base.Json.{Json, bool, obj, end, field, get_field}
use tpn_worker.Error.{ok}
use tpn_worker.World.{World, Env, PoolResponse}
use tpn_worker.Service.MiningPool.{register_with_mining_pool, registered_in, worker_object}
use tpn_worker.Service.MiningPool.Registered.{SamePeers, Accepts, registration-Accepts}
use tpn_worker.Service.MiningPool.Outcome.{Logged, register_unreachable, register_recorded}
use tpn_worker.Daemon.{register_at_start}
use tpn_worker.Daemon.Registration.{ok_true, register_at_start_ends}
use tpn_worker.Wireguard.Reachability.{
  has_host, contains, says_reachable, wait_rounds, wait_for_public_udp_reachability,
}
use tpn_worker.Wireguard.Reachability.Wait.{wait_ends}
use tpn_worker.Tests.Fixtures.{still, three, config, toy_keys, toy_server}
use tpn_worker.Tests.Retention.{config-is_worker, three-IsLog}

-- Any text is an object that says that the worker is registered.
abbrev parse : Text → Option Json
parse t = some (obj (field (codes "registered") (bool true) end))

abbrev response : PoolResponse
response = record { code = 200; body = some (codes "{}") }

-- The pool answers; the probe of the public port is silent.
abbrev accepting : Env
accepting = record still { pool = λ k. some response; probes = λ k. some ([], codes "timed out") }

says_registered : registered_in (obj (field (codes "registered") (bool true) end)) ≡ true
unfolding registered_in get_field eq_text
says_registered = refl

accepts : (k : ℕ) → 0 ≤ k → Accepts accepting toy_keys parse config (accepting.pool k)
accepts k le = (
  response,
  codes "{}",
  obj (field (codes "registered") (bool true) end),
  refl,
  refl,
  refl,
  says_registered,
)

register_at_start_ends_example :
    (u : World) × ((register_with_mining_pool accepting toy_keys parse config (some toy_server) u).0
      ≡ ok true)
    × (register_at_start accepting toy_keys parse config (some toy_server) 1 three
        ≡ some (register_with_mining_pool accepting toy_keys parse config (some toy_server) u).1)
register_at_start_ends_example =
    register_at_start_ends accepting toy_keys parse config (some toy_server) three 0 (λ k. refl)
      accepts config-is_worker

registers :
    (register_with_mining_pool accepting toy_keys parse config (some toy_server) three).0 ≡ ok true
registers = ok_true _ _ (
    (registration-Accepts accepting toy_keys parse config (some toy_server) 0 (λ k. refl)
        accepts).at
      three (omega arith))

register_recorded_example :
    Logged accepting toy_keys parse config
      (some toy_server)
      true
      (register_with_mining_pool accepting toy_keys parse config (some toy_server) three).1
register_recorded_example =
    register_recorded accepting toy_keys parse config (some toy_server) three true (λ k. refl)
      three-IsLog registers

silent : says_reachable (accepting.probes three.calls) ≡ false
unfolding says_reachable contains starts_with strip_prefix
silent = refl

register_unreachable_example :
    let w' =
      (register_with_mining_pool accepting toy_keys parse config (some toy_server) three).1 in
    SamePeers three w'
    × ((w'.posted ≡ three.posted)
        ⊎ ((socks5 : Option Text) × (w'.posted ≡ worker_object config none socks5 ∷ three.posted)))
register_unreachable_example =
    register_unreachable accepting toy_keys parse config toy_server three silent

-- Six seconds a round; the third probe reports success.
abbrev elapsed : ℕ → ℕ
elapsed k = 6000 * k

abbrev outputs : ℕ → Option (Text × Text)
outputs zero = none
outputs (suc zero) = some ([], codes "timed out")
outputs (suc (suc k)) = some (codes "succeeded!", [])

wait_ends_example :
    (b : Bool) × (wait_for_public_udp_reachability toy_server elapsed outputs 20000 ≡ some b)
    × ((b ≡ true) ↔ (
        (k : ℕ) × (elapsed k < 20000)
        × (has_host toy_server ≡ true)
        × (says_reachable (outputs k) ≡ true)))
wait_ends_example = wait_ends toy_server elapsed outputs 20000 (λ k. omega arith)

reached : wait_for_public_udp_reachability toy_server elapsed outputs 20000 ≡ some true
unfolding wait_for_public_udp_reachability wait_rounds says_reachable contains starts_with
    strip_prefix trim trim_start
reached = refl

given_up : wait_for_public_udp_reachability toy_server elapsed outputs 12000 ≡ some false
unfolding wait_for_public_udp_reachability wait_rounds says_reachable contains starts_with
    strip_prefix trim trim_start
given_up = refl
