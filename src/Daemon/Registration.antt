-- ===== src/Daemon/Registration.antt =====
-- The worker registers at last.
use tpn_worker.Base.{
  ℕ, zero, suc, ◌+◌, ◌≤◌, Bool, true, false, Text, Option, some, ◌≡◌, refl, arith,
}
use tpn_worker.Base.Json.{Json}
use tpn_worker.Error.{Result, ok, err}
use tpn_worker.World.{World, Env}
use tpn_worker.World.Triple.{Outcome}
use tpn_worker.Config.{AppConfig, is_worker}
use tpn_worker.Service.MiningPool.{register_with_mining_pool}
use tpn_worker.Service.MiningPool.Registered.{Accepts, registration-Accepts, registration-grows}
use tpn_worker.Wireguard.Server.{Keys, Server}
use tpn_worker.Daemon.{ends_or, register_until, register_at_start}

pub ok_true :
    (r : Result Bool) (w : World)
    → Outcome (λ b w. (b ≡ true) × Unit {0}) (λ _ w. ⊥) r w
    → r ≡ ok true
ok_true (ok b) w h = cc (h.0)
ok_true (err e) w h = absurd h

calls_after :
    (n : ℕ) (r : Result Bool) (w : World)
    → Outcome (λ _ w. n ≤ w.calls) (λ _ w. n ≤ w.calls) r w
    → n ≤ w.calls
calls_after n (ok b) w h = h
calls_after n (err e) w h = h

module _ (env : Env) (keys : Keys) (parse : Text → Option Json) (config : AppConfig)
    (wg_server : Option Server) (works : (k : ℕ) → env.fails k ≡ false) (n : ℕ)
    (accepting : (k : ℕ) → n ≤ k → Accepts env keys parse config (env.pool k)) where
  -- A state in which an attempt registers, and the loop ends with what it leaves.
  abbrev Ends : Option World → Type 0
  Ends o =
      (u : World) × ((register_with_mining_pool env keys parse config wg_server u).0 ≡ ok true)
      × (o ≡ some (register_with_mining_pool env keys parse config wg_server u).1)

  attempted :
      (w : World) (r : Result Bool) (next : Option World)
      → (register_with_mining_pool env keys parse config wg_server w).0 ≡ r
      → Ends next
      → Ends (ends_or r (register_with_mining_pool env keys parse config wg_server w).1 next)
  attempted w (ok true) next e later = (w, e, refl)
  attempted w (ok false) next e later = later
  attempted w (err x) next e later = later

  ends :
      (m j : ℕ) (w : World)
      → n ≤ j + m
      → j ≤ w.calls
      → Ends (register_until env keys parse config wg_server (suc m) w)
  unfolding register_until
  ends zero j w enough calls =
      let t =
        (registration-Accepts env keys parse config wg_server n works accepting).at w
          (omega arith) in
      let done = ok_true _ _ t in (w, done, rw done refl)
  ends (suc m) j w enough calls =
      let r = register_with_mining_pool env keys parse config wg_server w in
      let grown =
        calls_after (suc j) r.0 r.1
          ((registration-grows env keys parse config wg_server j).at w calls) in
      attempted w r.0 _ refl (ends m (suc j) r.1 (omega arith) grown)

-- Where no statement fails and the mining pool answers every request from its n-th outside event on
-- with a response that registers the worker, the loop at the start of a worker ends within n + 1
-- attempts, from whatever state it starts, and its last attempt answers that the worker is
-- registered.
pub register_at_start_ends :
    (env : Env) (keys : Keys) (parse : Text → Option Json) (config : AppConfig)
    (wg_server : Option Server) (w : World) (n : ℕ)
    → ((k : ℕ) → env.fails k ≡ false)
    → ((k : ℕ) → n ≤ k → Accepts env keys parse config (env.pool k))
    → is_worker config ≡ true
    → (u : World) × ((register_with_mining_pool env keys parse config wg_server u).0 ≡ ok true)
      × (register_at_start env keys parse config wg_server (suc n) w
          ≡ some (register_with_mining_pool env keys parse config wg_server u).1)
unfolding register_at_start
register_at_start_ends env keys parse config wg_server w n works accepting worker =
    rw worker
      (ends env keys parse config wg_server works n accepting n 0 w (omega arith) (omega arith))
