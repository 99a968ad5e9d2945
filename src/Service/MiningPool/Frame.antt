-- ===== src/Service/MiningPool/Frame.antt =====
-- What the steps of a registration leave alone.
use tpn_worker.Base.{
  ℕ, ◌≤◌, Bool, true, false, Text, codes, List, Option, none, some, ◌≡◌, refl, arith,
}
use tpn_worker.Base.Json.{Json}
use tpn_worker.Error.{AppError}
use tpn_worker.World.{World, Env, Registration, PoolResponse, probe, bump}
use tpn_worker.World.Triple.{
  Triple, Triple-bind, Triple-then, Triple-pure, Triple-catch, Triple-ok_or, Triple-if, Triple-now,
  Triple-ignore, Triple-execute, Triple-call, Triple-call_works,
}
use tpn_worker.World.Frame.{SocksFrame, Frame, kept}
use tpn_worker.Config.{AppConfig}
use tpn_worker.Db.RegistrationLog.{insert_registration}
use tpn_worker.Service.LeaseManager.Frame.{socks5-Framed, wireguard-Framed}
use tpn_worker.Service.MiningPool.{lease_text, wireguard_text, build_client, read_answer}
use tpn_worker.Wireguard.Server.{Keys, Server}
use tpn_worker.Wireguard.Reachability.{
  has_host, says_reachable, check_public_udp_reachability, public_udp_reachable,
}

ready_or_not : (b : Bool) → b ≡ true → b ≡ false → ⊥
ready_or_not b up down = cc

module _ (env : Env) (keys : Keys) (parse : Text → Option Json) (config : AppConfig)
    (wg_server : Option Server) where
  module _ (P : World → Type 0) (E : AppError → World → Type 0) where
    pub socks5_text-keeps :
        SocksFrame P
        → Triple P (lease_text env keys parse config wg_server (codes "socks5")) (λ _. P) E
    unfolding lease_text
    socks5_text-keeps f =
        Triple-catch (λ _. P)
          (Triple-bind (λ _. P)
            (kept (socks5-Framed env keys config wg_server P f _ (codes "text")))
            (λ lease. Triple-pure lease.config_text (λ w h. h)))
          (λ e. Triple-pure none (λ w h. h))

    wireguard_lease-keeps :
        Frame P
        → Triple P (lease_text env keys parse config wg_server (codes "wireguard")) (λ _. P) E
    unfolding lease_text
    wireguard_lease-keeps f =
        Triple-catch (λ _. P)
          (Triple-bind (λ _. P)
            (kept (wireguard-Framed env keys config wg_server P f _ (codes "text")))
            (λ lease. Triple-pure lease.config_text (λ w h. h)))
          (λ e. Triple-pure none (λ w h. h))

    pub wireguard_text-keeps :
        Frame P
        → (server : Option Server)
        → Triple P (wireguard_text env keys parse config wg_server server) (λ _. P) E
    unfolding wireguard_text public_udp_reachable check_public_udp_reachability probe
    wireguard_text-keeps f none = wireguard_lease-keeps f
    wireguard_text-keeps f (some server) =
        Triple-bind (λ _. P)
          (Triple-if (has_host server)
            (λ _.
              Triple-bind (λ _. P) (record { at = λ w h. f.below.bumped w h })
                (λ output. Triple-pure _ (λ w h. h)))
            (λ _. Triple-pure false (λ w h. h)))
          λ ready. Triple-if ready (λ _. wireguard_lease-keeps f) (λ _. Triple-pure none (λ w h. h))

    -- A server whose probe does not report success.
    pub unreachable :
        (server : Server) (Before : World → Type 0)
        → ((w : World)
            → Before w
            → (says_reachable (env.probes w.calls) ≡ false) × P w × P (bump w))
        → Triple Before
            (wireguard_text env keys parse config wg_server (some server))
            (λ o w. (o ≡ none) × P w)
            E
    unfolding wireguard_text public_udp_reachable check_public_udp_reachability probe
    unreachable server Before silent =
        Triple-bind (λ ready w. (ready ≡ false) × P w)
          (Triple-if (has_host server)
            (λ _.
              Triple-bind (λ output w. (says_reachable output ≡ false) × P w)
                (record { at = λ w h. ((silent w h).0, (silent w h).2) })
                (λ output. Triple-pure _ (λ w h. h)))
            (λ _. Triple-pure false (λ w h. (refl, (silent w h).1))))
          λ ready.
            Triple-if ready (λ up. record { at = λ w h. absurd (ready_or_not ready up h.0) })
              (λ _. Triple-pure none (λ w h. (refl, h.1)))

  -- The statements of the log, where a condition on the state does not read the log.
  pub insert-keeps :
      (P : World → Type 0) (E : AppError → World → Type 0)
      → ((w : World) (t : List Registration) (n k : ℕ)
          → w.calls ≤ k
          → P w
          → P (record w { registrations = t; next_registration_id = n; calls = k }))
      → (url : Text) (success : Bool) (code : ℕ) (body error : Text)
      → Triple P (insert_registration env url success code body error) (λ _. P) E
  unfolding insert_registration
  insert-keeps P E keep url success code body error =
      Triple-bind (λ _. P) (Triple-now env (λ w h. keep w _ _ _ (omega arith) h))
        λ now.
          Triple-then P
            (Triple-ignore (
              Triple-execute env _ (λ w h. keep w _ _ _ (omega arith) h)
                (λ w h. keep w _ _ _ (omega arith) h)))
            (Triple-ignore (
              Triple-execute env _ (λ w h. keep w _ _ _ (omega arith) h)
                (λ w h. keep w _ _ _ (omega arith) h)))

  -- The answer is read, where every error on the way keeps the condition.
  pub answer-keeps :
      (P : World → Type 0)
      → ((w : World) (t : List Registration) (n k : ℕ)
          → w.calls ≤ k
          → P w
          → P (record w { registrations = t; next_registration_id = n; calls = k }))
      → (response : Option PoolResponse)
      → Triple P (read_answer env keys parse config wg_server response) (λ _. P) (λ _. P)
  unfolding read_answer
  answer-keeps P keep response =
      Triple-bind (λ _. P) (Triple-ok_or response _ (λ r w e h. h) (λ w e h. h))
        λ r.
          Triple-bind (λ _. P) (Triple-ok_or r.body _ (λ t w e h. h) (λ w e h. h))
            λ text.
              Triple-bind (λ _. P) (Triple-ok_or (parse text) _ (λ b w e h. h) (λ w e h. h))
                λ body. Triple-then P (insert-keeps P _ keep _ _ _ _ _) (Triple-pure _ (λ w h. h))

  pub client-keeps :
      (P Q : World → Type 0) (E : AppError → World → Type 0)
      → ((w : World) → P w → Q (bump w))
      → ((x : AppError) (w : World) → Q w → E x w)
      → Triple P (build_client env keys parse config wg_server) (λ _. Q) E
  unfolding build_client
  client-keeps P Q E keep failed = Triple-call env _ _ keep (λ w h. failed _ _ (keep w h))

  pub client-works :
      (P : World → Type 0) (E : AppError → World → Type 0)
      → ((k : ℕ) → env.fails k ≡ false)
      → ((w : World) → P w → P (bump w))
      → Triple P (build_client env keys parse config wg_server) (λ _. P) E
  unfolding build_client
  client-works P E works keep = Triple-call_works env _ _ works keep
