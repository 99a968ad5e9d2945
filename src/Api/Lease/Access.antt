-- ===== src/Api/Lease/Access.antt =====
-- Who may ask a worker for leases while the mining pool's name does not resolve.
use tpn_worker.Base.{ℕ, true, false, not, ◌&&◌, [], Text, Option, none, some, ◌≡◌, refl}
use tpn_worker.Error.{ok}
use tpn_worker.World.{World, Env, lookup_host, pure}
use tpn_worker.World.Triple.{
  Triple, Triple-bind, Triple-then, Triple-pure, Triple-if, Triple-weaken, Triple-answer,
  Triple-now, Triple-ok_or, Triple-catch,
}
use tpn_worker.Config.{AppConfig, is_worker, effective_mining_pool_url}
use tpn_worker.Net.Ip.{is_local_ip, sanitize_ipv4, is_valid_ipv4}
use tpn_worker.Net.Dns.{
  extract_hostname, resolve_domain_to_ipv4s, get_cached, look_up, cached_or_look_up,
}
use tpn_worker.Service.Cache.{get_string, get, find}
use tpn_worker.Wireguard.Server.{Keys, Server}
use tpn_worker.Api.Lease.{Outside, LeaseParams, Response, check_caller, lease_new, contains_text}
use tpn_worker.Api.Lease.Tokens.{Any, Anyhow, anything, given, require-true}

abbrev Cold : World → Type 0
Cold w = w.cache ≡ []

module _ (env : Env) (unresolved_names : (k : ℕ) → env.hosts k ≡ none) where
  cached-Cold : (k : Text) → Triple Cold (get_cached env k) (λ found w. found ≡ none) (λ _. Cold)
  unfolding get_cached get_string get find pure
  cached-Cold k =
      Triple-bind (λ _. Cold) (Triple-now env (λ w h. h)) (λ now. record { at = λ w h. rw h refl })

  look_up-Cold : (k : Text) → Triple Any (look_up env k) (λ ts _. ts ≡ []) Anyhow
  unfolding look_up lookup_host
  look_up-Cold k =
      Triple-bind (λ found _. found ≡ none) (record { at = λ w h. unresolved_names w.calls })
        λ found. given λ missing.
          Triple-bind (λ _ _. true ≡ false)
            (Triple-ok_or found _ (λ hosts w e h. cc (e, missing)) (λ w e h. tt))
            (λ hosts. record { at = λ w h. cc h })

  -- Nothing resolves.
  resolve-Cold :
      (url : Text)
      → is_valid_ipv4 (extract_hostname url) ≡ false
      → Triple Cold (resolve_domain_to_ipv4s env url) (λ ts _. ts ≡ []) Anyhow
  unfolding resolve_domain_to_ipv4s cached_or_look_up
  resolve-Cold url named =
      Triple-if (is_valid_ipv4 (extract_hostname url)) (λ literal. cc (literal, named))
        λ _.
          Triple-bind (λ found _. found ≡ none)
            (Triple-weaken (cached-Cold _) (λ w h. h) (λ a w h. h) (λ x w h. tt))
            (elim [
              | none ↦ Triple-weaken (look_up-Cold _) (λ w h. tt) (λ a w h. h) (λ x w h. h)
              | some s ↦ record { at = λ w h. cc h }
            ])

  module _ (keys : Keys) (config : AppConfig) (wg_server : Option Server) (o : Outside) where
    caller-Local :
        (addr : Text)
        → (is_worker config && not config.ci_mock_worker_responses) ≡ true
        → is_valid_ipv4 (extract_hostname (effective_mining_pool_url config)) ≡ false
        → Triple Cold
            (check_caller env keys config wg_server o addr)
            (λ _ _.
              is_local_ip (sanitize_ipv4 addr) config.tpn_internal_subnet config.tpn_external_subnet
              ≡ true)
            Anyhow
    unfolding check_caller contains_text
    caller-Local addr checks named =
        Triple-if (is_worker config && not config.ci_mock_worker_responses)
          (λ _.
            Triple-bind (λ allowed _. allowed ≡ [])
              (Triple-catch Anyhow (resolve-Cold (effective_mining_pool_url config) named)
                (λ e. Triple-pure [] (λ w h. refl)))
              (λ allowed. given λ nobody. rw nobody (require-true env keys config wg_server o _ _)))
          (λ unchecked. cc (checks, unchecked))

-- While the mining pool's name, which is no address itself, does not resolve and the cache is
-- empty, a worker outside the mock mode grants leases to local callers only.
pub lease_new_closed :
    (env : Env) (keys : Keys) (config : AppConfig) (wg_server : Option Server) (o : Outside)
    (addr : Text) (p : LeaseParams) (w : World) (r : Response)
    → ((k : ℕ) → env.hosts k ≡ none)
    → w.cache ≡ []
    → is_valid_ipv4 (extract_hostname (effective_mining_pool_url config)) ≡ false
    → (is_worker config && not config.ci_mock_worker_responses) ≡ true
    → (lease_new env keys config wg_server o addr p w).0 ≡ ok r
    → is_local_ip (sanitize_ipv4 addr) config.tpn_internal_subnet config.tpn_external_subnet ≡ true
unfolding lease_new
lease_new_closed env keys config wg_server o addr p w r unresolved cold named checks granted =
    Triple-answer
      (Triple-then
        (λ _.
          is_local_ip (sanitize_ipv4 addr) config.tpn_internal_subnet config.tpn_external_subnet
          ≡ true)
        (caller-Local env unresolved keys config wg_server o addr checks named)
        (given λ local. Triple-weaken (anything Any _) (λ w h. h) (λ a w h. local) (λ x w h. h)))
      w cold granted
