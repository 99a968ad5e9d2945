-- ===== src/Service/MiningPool/Outcome.antt =====
-- What a registration comes to: the leases that it takes, and the entry of the log.
use tpn_worker.Base.{ℕ, Bool, false, Text, Option, none, some, ◌∷◌, ◌≡◌, ◌∙◌, ◌⊎◌, refl}
use tpn_worker.Base.Json.{Json}
use tpn_worker.Error.{AppError, ok}
use tpn_worker.World.{World, Env, PoolResponse, post}
use tpn_worker.World.Triple.{
  Triple, Triple-bind, Triple-then, Triple-pure, Triple-ok_or, Triple-state, Triple-answer,
  Triple-weaken,
}
use tpn_worker.World.Frame.{Frame}
use tpn_worker.Config.{AppConfig, effective_mining_pool_url}
use tpn_worker.Db.RegistrationLog.Bounded.{IsLog}
use tpn_worker.Db.RegistrationLog.Recorded.{IsNewest, insert-Recorded}
use tpn_worker.Service.MiningPool.{
  registered_in, error_in, worker_object, read_answer, register_with_mining_pool,
}
use tpn_worker.Service.MiningPool.Frame.{socks5_text-keeps, wireguard_text-keeps, client-works}
use tpn_worker.Service.MiningPool.Registered.{SamePeers, registration-Sent}
use tpn_worker.Wireguard.Server.{Keys, Server}
use tpn_worker.Wireguard.Reachability.{says_reachable}

-- Where a probe of the server's public port does not report success, a registration leaves the
-- WireGuard leases, the peers in memory and the interface as they were, whether or not it fails, and
-- it sends the mining pool no request, or one that has no WireGuard configuration.
pub register_unreachable :
    (env : Env) (keys : Keys) (parse : Text → Option Json) (config : AppConfig) (server : Server)
    (w : World)
    → says_reachable (env.probes w.calls) ≡ false
    → let w' = (register_with_mining_pool env keys parse config (some server) w).1 in
      SamePeers w w'
      × ((w'.posted ≡ w.posted)
          ⊎ ((socks5 : Option Text) × (w'.posted ≡ worker_object config none socks5 ∷ w.posted)))
register_unreachable env keys parse config server w silent =
    Triple-state (registration-Sent env keys parse config server w silent) w
      (refl, ((refl, refl, refl), refl))

module _ (env : Env) (keys : Keys) (parse : Text → Option Json) (config : AppConfig)
    (wg_server : Option Server) where
  -- What an answer of the mining pool says is in the newest entry of the log.
  abbrev pub Logged : Bool → World → Type 0
  Logged b w =
      (r : PoolResponse) × (text : Text) × (body : Json) × (k : ℕ) × (env.pool k ≡ some r)
      × (r.body ≡ some text)
      × (parse text ≡ some body)
      × (b ≡ registered_in body)
      × IsNewest (effective_mining_pool_url config) b r.code text (error_in body) w

  IsLog-Frame : Frame IsLog
  IsLog-Frame = record {
    below = record {
      bumped = λ w h. record { falls = h.falls; next = h.next };
      socks = λ w t h. record { falls = h.falls; next = h.next };
    };
    leases = λ w t h. record { falls = h.falls; next = h.next };
    peers = λ w t h. record { falls = h.falls; next = h.next };
    interface = λ w t h. record { falls = h.falls; next = h.next };
  }

  abbrev Any : AppError → World → Type 0
  Any _ w = Unit

  module _ (works : (k : ℕ) → env.fails k ≡ false) where
    answer-Logged :
        (response : Option PoolResponse) (n : ℕ)
        → env.pool n ≡ response
        → Triple IsLog (read_answer env keys parse config wg_server response) Logged Any
    unfolding read_answer
    answer-Logged response n answered =
        Triple-bind (λ r w. (env.pool n ≡ some r) × IsLog w)
          (Triple-ok_or response _ (λ r w e h. (answered ∙ e, h)) (λ w e h. tt))
          λ r.
            Triple-bind (λ text w. (env.pool n ≡ some r) × (r.body ≡ some text) × IsLog w)
              (Triple-ok_or r.body _ (λ text w e h. (h.0, e, h.1)) (λ w e h. tt))
              λ text.
                Triple-bind
                  (λ body w.
                    (env.pool n ≡ some r)
                    × (r.body ≡ some text)
                    × (parse text ≡ some body)
                    × IsLog w)
                  (Triple-ok_or (parse text) _ (λ body w e h. (h.0, h.1, e, h.2)) (λ w e h. tt))
                  λ body. record {
                    at = λ w h.
                        (Triple-then
                            (IsNewest (effective_mining_pool_url config) (registered_in body) r.code
                              text (error_in body))
                            (Triple-weaken (insert-Recorded env works _ _ _ _ _ Any) (λ w k. k)
                              (λ u w k. k.1) (λ e w k. tt))
                            (Triple-pure (registered_in body)
                              (λ w k. (r, text, body, n, h.0, h.1, h.2, refl, k)))).at
                          w h.3;
                  }

    registration-Logged :
        Triple IsLog (register_with_mining_pool env keys parse config wg_server) Logged Any
    unfolding register_with_mining_pool post
    registration-Logged =
        Triple-bind (λ _. IsLog)
          (wireguard_text-keeps env keys parse config wg_server IsLog _ IsLog-Frame wg_server)
          λ wireguard.
            Triple-bind (λ _. IsLog)
              (socks5_text-keeps env keys parse config wg_server IsLog _ IsLog-Frame.below)
              λ socks5.
                Triple-then IsLog
                  (client-works env keys parse config wg_server IsLog _ works
                    IsLog-Frame.below.bumped)
                  (Triple-bind (λ response w. ((n : ℕ) × (env.pool n ≡ response)) × IsLog w)
                    (record {
                      at = λ w h. ((w.calls, refl), record { falls = h.falls; next = h.next });
                    })
                    (λ response. record {
                      at = λ w h. (answer-Logged response h.0.0 h.0.1).at w h.1;
                    }))

-- Where the ids of the log are in order and no statement fails: a registration that answers does so
-- because the mining pool's response had a body that parses; the answer is its field `registered`,
-- or else `success`, or else false; and the newest entry of the log holds the URL of the pool, that
-- answer, the status and the body of the response and its error message.
pub register_recorded :
    (env : Env) (keys : Keys) (parse : Text → Option Json) (config : AppConfig)
    (wg_server : Option Server) (w : World) (b : Bool)
    → ((k : ℕ) → env.fails k ≡ false)
    → IsLog w
    → (register_with_mining_pool env keys parse config wg_server w).0 ≡ ok b
    → Logged env keys parse config wg_server b
        (register_with_mining_pool env keys parse config wg_server w).1
register_recorded env keys parse config wg_server w b works log answered =
    Triple-answer (registration-Logged env keys parse config wg_server works) w log answered
