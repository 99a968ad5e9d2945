-- ===== src/Api/Lease/Rejected.antt =====
-- A request that is rejected, with 400 or 403, has leased nothing and taken nothing.
use tpn_worker.Base.{
  ℤ, Bool, true, not, [], Text, codes, eq_text, Option, none, some, ◌≡◌, refl, ◌==◌, ◌&&◌,
}
use tpn_worker.Error.{
  AppError, err, status, internal, lease_unavailable, no_slot, server_unavailable,
}
use tpn_worker.World.{World, Env, M}
use tpn_worker.World.Triple.{
  Triple, Triple-bind, Triple-then, Triple-pure, Triple-raise, Triple-now, Triple-if, Triple-ok_or,
  Triple-catch, Triple-weaken, Triple-error,
}
use tpn_worker.Config.{AppConfig, is_worker}
use tpn_worker.Wireguard.Server.{Keys, Server}
use tpn_worker.Service.LeaseManager.{
  allocate_wireguard, check_availability, allocate_socks5, extend_wireguard, extend_socks5,
  extend_lease, new_lease, get_worker_config,
}
use tpn_worker.Api.Lease.{
  Outside, LeaseParams, require, check_caller, validate, check_token, lease_new,
}
use tpn_worker.Error.{is_client}
use tpn_worker.Api.Lease.ServerErrors.{
  Always, Sure, get_socks5_config-Sure, count_available-Sure, cleanup-Sure, extend_socks5-Sure,
  extend_wireguard-Sure, read_socks-Sure, register-Sure, allocate-Sure, client_config-Sure,
}
use tpn_worker.Api.Lease.Resolution.{Held, held, resolve-Same}

module _ (h : Held) where
  abbrev Same : World → Type 0
  Same w = held w ≡ h

  -- An error of the caller leaves all as it was.
  abbrev Rejects : AppError → World → Type 0
  Rejects x w = is_client x ≡ true → Same w

  abbrev Answers {ℓ} : {A : Type ℓ} → M A → Type ℓ
  Answers m = Triple Same m (λ _. Always) Rejects

  server_later {ℓ} : {A : Type ℓ} {m : M A} → Sure m → Triple Always m (λ _. Always) Rejects
  server_later t = Triple-weaken t (λ w p. p) (λ a w q. q) (λ x w e client. cc (e, client))

  server_first {ℓ} : {A : Type ℓ} {m : M A} → Sure m → Answers m
  server_first t = Triple-weaken t (λ w p. tt) (λ a w q. q) (λ x w e client. cc (e, client))

  module _ (env : Env) (keys : Keys) (config : AppConfig) (wg_server : Option Server) where
    allocate_wireguard-Answers :
        (s : ℤ) (format : Text) → Answers (allocate_wireguard env keys config wg_server s format)
    unfolding allocate_wireguard status
    allocate_wireguard-Answers s format =
        Triple-bind (λ _. Always) (Triple-now env (λ w p. tt))
          λ now.
            Triple-if config.ci_mock_wg_container
              (λ _.
                Triple-bind (λ _. Always) (server_later (register-Sure env _ _ _))
                  (λ l. Triple-pure _ (λ w p. tt)))
              (λ _.
                Triple-bind (λ _. Always)
                  (Triple-ok_or wg_server (internal server_unavailable) (λ server w e p. tt)
                    (λ w e p client. cc client))
                  λ server.
                    Triple-bind (λ _. Always) (server_later (allocate-Sure env keys server _ _ _))
                      (λ a. Triple-pure _ (λ w p. tt)))

    available-Answers :
        Triple Always (check_availability env keys config wg_server) (λ _. Always) Rejects
    unfolding check_availability status
    available-Answers =
        Triple-bind (λ _. Always) (server_later (count_available-Sure env _))
          λ count.
            Triple-if (count == 0)
              (λ _. Triple-then Always (server_later (cleanup-Sure env)) (
                Triple-bind (λ _. Always) (server_later (count_available-Sure env _))
                  λ new_count.
                    Triple-if (new_count == 0)
                      (λ _. Triple-raise (lease_unavailable no_slot) (λ w p client. cc client))
                      (λ _. Triple-pure tt (λ w p. tt))))
              (λ _. Triple-pure tt (λ w p. tt))

    allocate_socks5-Answers :
        (s : ℤ) (priority : Bool) (format : Text)
        → Answers (allocate_socks5 env keys config wg_server s priority format)
    unfolding allocate_socks5
    allocate_socks5-Answers s priority format =
        Triple-bind (λ _. Always) (Triple-now env (λ w p. tt))
          λ now.
            Triple-then Always
              (Triple-if priority (λ _. Triple-pure tt (λ w p. tt)) (λ _. available-Answers))
              (Triple-bind (λ _. Always) (server_later (get_socks5_config-Sure env _ priority _))
                (λ sock. Triple-pure _ (λ w p. tt)))

    extend_wireguard-Answers :
        (ref_val : Text) (expected new : ℤ) (format : Text)
        → Answers (extend_wireguard env keys config wg_server ref_val expected new format)
    unfolding extend_wireguard status
    extend_wireguard-Answers ref_val expected new format =
        Triple-bind (λ _. Same) (Triple-ok_or _ _ (λ i w e p. p) (λ w e p client. p))
          λ i.
            Triple-bind (λ _. Always) (server_first (extend_wireguard-Sure env i expected new))
              λ expires.
                Triple-bind (λ _. Always)
                  (Triple-ok_or wg_server _ (λ server w e p. tt) (λ w e p client. cc client))
                  λ server.
                    Triple-bind (λ _. Always) (server_later (client_config-Sure env keys server _))
                      (λ c. Triple-pure _ (λ w p. tt))

    extend_socks5-Answers :
        (u : Text) (expected new : ℤ) (format : Text)
        → Answers (extend_socks5 env keys config wg_server u expected new format)
    unfolding extend_socks5 status
    extend_socks5-Answers u expected new format =
        Triple-bind (λ _. Always) (server_first (extend_socks5-Sure env u expected new))
          λ expires.
            Triple-bind (λ _. Always) (server_later (read_socks-Sure env u))
              λ found.
                Triple-bind (λ _. Always)
                  (Triple-ok_or found _ (λ sock w e p. tt) (λ w e p client. cc client))
                  (λ sock. Triple-pure _ (λ w p. tt))

    config-Answers :
        (lease_type : Text) (s : ℤ) (priority : Bool) (format : Text) (extend_ref : Option Text)
        (extend_expires_at : Option ℤ)
        → Answers (
            get_worker_config env keys config wg_server lease_type s priority format extend_ref
              extend_expires_at)
    unfolding get_worker_config extend_lease new_lease
    config-Answers lease_type s priority format (some ref_val) extend_expires_at =
        Triple-bind (λ _. Same)
          (Triple-ok_or extend_expires_at _ (λ e w q p. p) (λ w q p client. p))
          λ expected.
            Triple-bind (λ _. Same) (Triple-now env (λ w p. p))
              λ now.
                Triple-if (eq_text lease_type (codes "wireguard"))
                  (λ _. extend_wireguard-Answers ref_val expected _ format)
                  (λ _.
                    Triple-if (eq_text lease_type (codes "socks5"))
                      (λ _. extend_socks5-Answers ref_val expected _ format)
                      (λ _. Triple-raise _ (λ w p client. p)))
    config-Answers lease_type s priority format none extend_expires_at =
        Triple-if (eq_text lease_type (codes "wireguard"))
          (λ _. allocate_wireguard-Answers s format)
          (λ _.
            Triple-if (eq_text lease_type (codes "socks5"))
              (λ _. allocate_socks5-Answers s priority format)
              (λ _. Triple-raise _ (λ w p client. p)))

    module _ (o : Outside) where
      require-Same :
          (b : Bool) (e : AppError)
          → Triple Same (require env keys config wg_server o b e) (λ _. Same) Rejects
      unfolding require
      require-Same b e =
          Triple-if b (λ _. Triple-pure tt (λ w p. p)) (λ _. Triple-raise e (λ w p client. p))

      caller-Same :
          (addr : Text)
          → Triple Same (check_caller env keys config wg_server o addr) (λ _. Same) Rejects
      unfolding check_caller
      caller-Same addr =
          Triple-if (is_worker config && not config.ci_mock_worker_responses)
            (λ _.
              Triple-bind (λ _. Same)
                (Triple-catch (λ _. Same) (resolve-Same h env _) (λ e. Triple-pure [] (λ w p. p)))
                (λ allowed. require-Same _ _))
            (λ _. Triple-pure tt (λ w p. p))

      token-Same :
          (r token : Option Text)
          → Triple Same (check_token env keys config wg_server o r token) (λ _. Same) Rejects
      unfolding check_token
      token-Same none token = Triple-pure tt (λ w p. p)
      token-Same (some r) token = require-Same _ _

      lease_new-Answers :
          (addr : Text) (p : LeaseParams) → Answers (lease_new env keys config wg_server o addr p)
      unfolding lease_new validate
      lease_new-Answers addr p = Triple-then Same (caller-Same addr) (
          Triple-then Same
            (Triple-then Same (require-Same _ _) (
              Triple-then Same (require-Same _ _)
                (Triple-then Same (require-Same _ _) (require-Same _ _))))
            (Triple-then Same (token-Same p.extend_ref p.lease_token) (
              Triple-bind (λ _. Always) (config-Answers _ _ _ _ _ _)
                (λ r. Triple-pure _ (λ w q. tt)))))

-- A request that is answered with 400 or 403, whichever check it fails and however the outside
-- answers, leaves both tables of leases, the server's peers and the kernel's interface as they were.
pub lease_new_rejected :
    (env : Env) (keys : Keys) (config : AppConfig) (wg_server : Option Server) (o : Outside)
    (addr : Text) (p : LeaseParams) (w : World) (x : AppError)
    → (lease_new env keys config wg_server o addr p w).0 ≡ err x
    → is_client x ≡ true
    → held (lease_new env keys config wg_server o addr p w).1 ≡ held w
lease_new_rejected env keys config wg_server o addr p w x failed client =
    Triple-error (lease_new-Answers (held w) env keys config wg_server o addr p) w refl failed
      client
