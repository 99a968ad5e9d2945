-- ===== src/Service/MiningPool/Registered.antt =====
-- What a registration takes, sends and records.
use tpn_worker.Base.{
  ℕ, suc, ◌≤◌, true, false, Text, List, ◌∷◌, inl, inr, ◌⊎◌, Option, none, some, ◌≡◌, refl, arith,
}
use tpn_worker.Base.Json.{Json}
use tpn_worker.World.{World, Env, Registration, PoolResponse, post}
use tpn_worker.World.Triple.{Triple, Triple-bind, Triple-then, Triple-pure, Triple-some}
use tpn_worker.World.Frame.{Frame}
use tpn_worker.Config.{AppConfig}
use tpn_worker.Service.MiningPool.{
  registered_in, worker_object, read_answer, register_with_mining_pool,
}
use tpn_worker.Service.MiningPool.Frame.{
  socks5_text-keeps, wireguard_text-keeps, unreachable, insert-keeps, answer-keeps, client-keeps,
  client-works,
}
use tpn_worker.Wireguard.Server.{Keys, Server}
use tpn_worker.Wireguard.Reachability.{says_reachable}

-- The WireGuard table, the peers in memory, the interface and the requests are those of a state.
abbrev pub SamePeers : World → World → Type 0
SamePeers u w = (w.leases ≡ u.leases) × (w.peers ≡ u.peers) × (w.interface ≡ u.interface)

module _ (env : Env) (keys : Keys) (parse : Text → Option Json) (config : AppConfig) where
  module _ (server : Server) (u : World) where
    abbrev pub Unsent : World → Type 0
    Unsent w = SamePeers u w × (w.posted ≡ u.posted)

    -- No request was sent, or one with no WireGuard configuration.
    abbrev pub Sent : World → Type 0
    Sent w =
        SamePeers u w
        × ((w.posted ≡ u.posted)
            ⊎ ((socks5 : Option Text) × (w.posted ≡ worker_object config none socks5 ∷ u.posted)))

    pub registration-Sent :
        says_reachable (env.probes u.calls) ≡ false
        → Triple
            (λ w. (w.calls ≡ u.calls) × Unsent w)
            (register_with_mining_pool env keys parse config (some server))
            (λ _. Sent)
            (λ _. Sent)
    unfolding register_with_mining_pool post
    registration-Sent silent =
        Triple-bind (λ wireguard w. (wireguard ≡ none) × Unsent w)
          (unreachable env keys parse config (some server) Unsent (λ _. Sent) server
            (λ w. (w.calls ≡ u.calls) × Unsent w) (λ w h. (rw h.0 silent, h.1, h.1)))
          λ wireguard.
            Triple-bind (λ _ w. (wireguard ≡ none) × Unsent w)
              (socks5_text-keeps env keys parse config (some server)
                (λ w. (wireguard ≡ none) × Unsent w) (λ _. Sent)
                (record { bumped = λ w h. h; socks = λ w t h. h }))
              λ socks5.
                Triple-then (λ w. (wireguard ≡ none) × Unsent w)
                  (client-keeps env keys parse config (some server)
                    (λ w. (wireguard ≡ none) × Unsent w) (λ w. (wireguard ≡ none) × Unsent w)
                    (λ _. Sent) (λ w h. h) (λ x w h. (h.1.0, inl h.1.1)))
                  (Triple-bind (λ _. Sent)
                    (record { at = λ w h. (h.1.0, inr (socks5, rw (h.0, h.1.1) refl)) })
                    (answer-keeps env keys parse config (some server) Sent (λ w t n k le h. h)))

  -- The mining pool's answer says that the worker is registered.
  abbrev pub Accepts : Option PoolResponse → Type 0
  Accepts response =
      (r : PoolResponse) × (text : Text) × (body : Json) × (response ≡ some r)
      × (r.body ≡ some text)
      × (parse text ≡ some body)
      × (registered_in body ≡ true)

  module _ (wg_server : Option Server) where
    answer-Accepts :
        (P : World → Type 0) (response : Option PoolResponse)
        → ((w : World) (t : List Registration) (n k : ℕ)
            → w.calls ≤ k
            → P w
            → P (record w { registrations = t; next_registration_id = n; calls = k }))
        → Accepts response
        → Triple P
            (read_answer env keys parse config wg_server response)
            (λ b w. (b ≡ true) × P w)
            (λ _ w. ⊥)
    unfolding read_answer
    answer-Accepts P response keep (r, text, body, e, full, parsed, yes_registered) =
        Triple-some _ _ e (
          Triple-some _ _ full (
            Triple-some _ _ parsed (
              Triple-then P (insert-keeps env keys parse config wg_server P _ keep _ _ _ _ _)
                (Triple-pure _ (λ w h. (yes_registered, h))))))

    abbrev AtLeast : ℕ → World → Type 0
    AtLeast n w = n ≤ w.calls

    at_least : (n : ℕ) → Frame (AtLeast n)
    at_least n = record {
      below = record { bumped = λ w h. omega arith; socks = λ w t h. h };
      leases = λ w t h. h;
      peers = λ w t h. h;
      interface = λ w t h. h;
    }

    -- An answered request that is accepted, after some number of events.
    pub registration-Accepts :
        (n : ℕ)
        → ((k : ℕ) → env.fails k ≡ false)
        → ((k : ℕ) → n ≤ k → Accepts (env.pool k))
        → Triple
            (AtLeast n)
            (register_with_mining_pool env keys parse config wg_server)
            (λ b w. (b ≡ true) × Unit {0})
            (λ _ w. ⊥)
    unfolding register_with_mining_pool post
    registration-Accepts n works accepting =
        Triple-bind (λ _. AtLeast n)
          (wireguard_text-keeps env keys parse config wg_server (AtLeast n) _ (at_least n)
            wg_server)
          λ wireguard.
            Triple-bind (λ _. AtLeast n)
              (socks5_text-keeps env keys parse config wg_server (AtLeast n) _ (at_least n).below)
              λ socks5.
                Triple-then (AtLeast n)
                  (client-works env keys parse config wg_server (AtLeast n) _ works
                    (at_least n).below.bumped)
                  (Triple-bind (λ response w. Accepts response)
                    (record { at = λ w h. accepting w.calls h })
                    (λ response. record {
                      at = λ w h.
                          (answer-Accepts (λ w. Unit {0}) response (λ w t n k le u. tt) h).at w tt;
                    }))

    -- Every attempt is at least one event.
    pub registration-grows :
        (n : ℕ)
        → Triple
            (AtLeast n)
            (register_with_mining_pool env keys parse config wg_server)
            (λ _. AtLeast (suc n))
            (λ _. AtLeast (suc n))
    unfolding register_with_mining_pool post
    registration-grows n =
        Triple-bind (λ _. AtLeast n)
          (wireguard_text-keeps env keys parse config wg_server (AtLeast n) _ (at_least n)
            wg_server)
          λ wireguard.
            Triple-bind (λ _. AtLeast n)
              (socks5_text-keeps env keys parse config wg_server (AtLeast n) _ (at_least n).below)
              λ socks5.
                Triple-then (AtLeast (suc n))
                  (client-keeps env keys parse config wg_server (AtLeast n) (AtLeast (suc n)) _
                    (λ w h. omega arith) (λ x w h. h))
                  (Triple-bind (λ _. AtLeast (suc n)) (record { at = λ w h. omega arith })
                    (answer-keeps env keys parse config wg_server (AtLeast (suc n))
                      (λ w t m k le h. omega arith)))
