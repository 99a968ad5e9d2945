-- ===== src/Wireguard/Start/Restored.antt =====
-- A start of the worker after an earlier one: the same server, with its peers.
use tpn_worker.Base.{ℕ, suc, true, false, Text, List, Option, some, ◌≡◌, refl, sym, ap, ◌∙◌}
use mathlib.Core.Path.{subst}
use tpn_worker.Error.{AppError, ok}
use tpn_worker.World.{World, Env, WgRow, PeerState, ServerKeyRow, bump}
use tpn_worker.World.Triple.{
  Triple, Triple-then, Triple-known, Triple-pure, Triple-kernel_works, Triple-ignore, Triple-weaken,
  Triple-total, Triple-answer,
}
use tpn_worker.Config.{AppConfig, is_worker}
use tpn_worker.Net.Ip.{Ipv4, parse_ipv4}
use tpn_worker.Db.Table.{where_rows}
use tpn_worker.Wireguard.Server.{Keys, Server, get_peer, is_restorable}
use tpn_worker.Wireguard.Server.Restart.{peer_after, peers_restored}
use tpn_worker.Wireguard.Start.{
  System, preflight_check, last_row, create_interface, configure_interface, new, start,
  start_server,
}
use tpn_worker.Wireguard.Start.SameKeys.{made, made_again, server_of}

module _ (env : Env) (keys : Keys) (works : (k : ℕ) → env.fails k ≡ false)
    (kernel : (k : ℕ) → env.kernel_fails k ≡ false) (config : AppConfig) (system : System) where
  passed :
      (P : World → Type 0) (E : AppError → World → Type 0)
      → system.tun_exists ≡ true
      → system.ip_runs ≡ true
      → Triple P (preflight_check system) (λ _. P) E
  unfolding preflight_check
  passed P E tun ip = rw (tun, ip) (Triple-pure tt (λ w h. h))

  module _ (rows : List WgRow) (i : ℕ) (old : Option PeerState) where
    -- The leases and the peer of an id, and how often the outside was called.
    abbrev Before : ℕ → World → Type 0
    Before n w = (w.calls ≡ n) × (w.leases ≡ rows) × (get_peer i w.peers ≡ old)

    counted : (n : ℕ) (w : World) → Before n w → Before (suc n) (bump w)
    counted n w h = (ap suc h.0, h.1, h.2)

    started :
        (n : ℕ) (E : AppError → World → Type 0)
        → Triple (Before n) (start env keys) (λ _. Before (suc (suc n))) E
    unfolding start create_interface configure_interface
    started n E =
        Triple-then (Before (suc n)) (Triple-kernel_works env _ _ kernel (counted n))
          (Triple-kernel_works env _ _ kernel (λ w h. counted (suc n) w h))

    server_started :
        (n : ℕ) (row : ServerKeyRow) (base : Ipv4)
        → is_worker config ≡ true
        → config.ci_mock_wg_container ≡ false
        → system.tun_exists ≡ true
        → system.ip_runs ≡ true
        → parse_ipv4 config.wg_subnet ≡ some base
        → (w : World) → (last_row w.server_keys ≡ some row) × Before n w
        → ((start_server env keys config system w).0 ≡ ok (some (server_of config base row).0))
          × (get_peer i (start_server env keys config system w).1.peers
              ≡ peer_after env keys
                  (server_of config base row).0
                  i
                  (where_rows
                    (is_restorable env keys
                      (server_of config base row).0
                      (env.clock (suc (suc (suc (suc n))))))
                    rows)
                  old)
    unfolding start_server new
    server_started n row base worker mock tun ip parsed =
        rw (worker, mock)
          (Triple-total (
            Triple-then _ (passed _ _ tun ip) (
              Triple-known _ (server_of config base row) (Before (suc (suc n)))
                (made_again env keys config works kernel row Before counted n base parsed)
                (Triple-then (Before (suc (suc (suc (suc n))))) (started (suc (suc n)) _) (
                  Triple-then _
                    (Triple-ignore (
                      Triple-weaken
                        (peers_restored env keys (server_of config base row).0 kernel _ rows i old _
                          works)
                        (λ w h. h) (λ c w h. h.1) (λ x w h. h)))
                    (Triple-pure _ (λ w h. (refl, h))))))))

-- A server was made once, and its row is still the newest of the table, as that start left it. Then
-- every later start of a worker with the same settings, where no call fails and the system has what
-- it needs, answers the same server, its public key included, and restores the peers: each id has
-- the peer of its last lease that has not expired and has keys that the library takes, or its peer
-- from before if there is none.
pub start_server_restores :
    (env later : Env) (keys : Keys) (config : AppConfig) (system : System) (server : Server × Text)
    (w w' : World)
    → (new env keys config w).0 ≡ ok server
    → w'.server_keys ≡ (new env keys config w).1.server_keys
    → ((k : ℕ) → later.fails k ≡ false)
    → ((k : ℕ) → later.kernel_fails k ≡ false)
    → is_worker config ≡ true
    → config.ci_mock_wg_container ≡ false
    → system.tun_exists ≡ true
    → system.ip_runs ≡ true
    → let r = start_server later keys config system w' in
      let now = later.clock (suc (suc (suc (suc w'.calls)))) in
      let rows = where_rows (is_restorable later keys server.0 now) w'.leases in
      (r.0 ≡ ok (some server.0))
      × ((i : ℕ)
          → get_peer i r.1.peers ≡ peer_after later keys server.0 i rows (get_peer i w'.peers))
start_server_restores env later keys config system server w w' first same works kernel worker mock
      tun ip =
    let (base, row, parsed, stored, e) = Triple-answer (made env keys config) w tt first in
    let h = λ (i : ℕ).
      server_started later keys works kernel config system w'.leases i (get_peer i w'.peers)
        w'.calls row base worker mock tun ip parsed w'
        (ap last_row same ∙ stored, (refl, refl, refl)) in
    subst
      (λ (s : Server × Text).
        let now = later.clock (suc (suc (suc (suc w'.calls)))) in
        ((start_server later keys config system w').0 ≡ ok (some s.0))
        × ((i : ℕ)
            → get_peer i (start_server later keys config system w').1.peers
              ≡ peer_after later keys s.0 i
                  (where_rows (is_restorable later keys s.0 now) w'.leases) (get_peer i w'.peers)))
      (sym e) ((h 0).0, λ i. (h i).1)
