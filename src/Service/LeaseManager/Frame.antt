-- ===== src/Service/LeaseManager/Frame.antt =====
-- New leases change the tables of leases, the peers in memory and the interface alone.
use tpn_worker.Base.{ℤ, Bool, false, ◌==◌, refl, Text, eq_text, codes, Option, none}
use tpn_worker.Error.{internal, lease_unavailable, no_slot, server_unavailable, status}
use tpn_worker.World.{World, Env}
use tpn_worker.World.Triple.{
  Triple-bind, Triple-then, Triple-pure, Triple-raise, Triple-now, Triple-if, Triple-ok_or,
}
use tpn_worker.World.Frame.{SocksFrame, Frame, Framed}
use tpn_worker.Config.{AppConfig}
use tpn_worker.Db.Socks5.Frame.{cleanup-Framed, get_socks5_config-Framed, count_available-Framed}
use tpn_worker.Db.Wireguard.Frame.{register-Framed}
use tpn_worker.Wireguard.Server.{Keys, Server}
use tpn_worker.Wireguard.PeerManager.Frame.{allocate-Framed}
use tpn_worker.Service.LeaseManager.{
  allocate_wireguard, check_availability, allocate_socks5, new_lease, get_worker_config,
}

module _ (env : Env) (keys : Keys) (config : AppConfig) (wg_server : Option Server)
    (P : World → Type 0) where
  module _ (f : SocksFrame P) where
    check_availability-Framed : Framed P (check_availability env keys config wg_server)
    unfolding check_availability status
    check_availability-Framed =
        Triple-bind (λ _. P) (count_available-Framed env P f config.priority_slots)
          λ count.
            Triple-if (count == 0)
              (λ _. Triple-then P (cleanup-Framed env P f) (
                Triple-bind (λ _. P) (count_available-Framed env P f config.priority_slots)
                  λ again.
                    Triple-if (again == 0)
                      (λ _. Triple-raise (lease_unavailable no_slot) (λ w h. (refl, h)))
                      (λ _. Triple-pure tt (λ w h. h))))
              (λ _. Triple-pure tt (λ w h. h))

    pub allocate_socks5-Framed :
        (seconds : ℤ) (priority : Bool) (format : Text)
        → Framed P (allocate_socks5 env keys config wg_server seconds priority format)
    unfolding allocate_socks5
    allocate_socks5-Framed seconds priority format =
        Triple-bind (λ _. P) (Triple-now env f.bumped)
          λ now.
            Triple-then P
              (Triple-if priority (λ _. Triple-pure tt (λ w h. h)) (λ _. check_availability-Framed))
              (Triple-bind (λ _. P)
                (get_socks5_config-Framed env P f _ priority config.priority_slots)
                (λ sock. Triple-pure _ (λ w h. h)))

    pub socks5-Framed :
        (seconds : ℤ) (format : Text)
        → Framed P (
            get_worker_config env keys config wg_server
              (codes "socks5")
              seconds
              false
              format
              none
              none)
    unfolding get_worker_config new_lease eq_text
    socks5-Framed seconds format = allocate_socks5-Framed seconds false format

  pub wireguard-Framed :
      Frame P
      → (seconds : ℤ) (format : Text)
      → Framed P (
          get_worker_config env keys config wg_server
            (codes "wireguard")
            seconds
            false
            format
            none
            none)
  unfolding get_worker_config new_lease eq_text allocate_wireguard status
  wireguard-Framed f seconds format =
      Triple-bind (λ _. P) (Triple-now env f.below.bumped)
        λ now.
          Triple-if config.ci_mock_wg_container
            (λ _.
              Triple-bind (λ _. P) (register-Framed env P f 1 _ _) (λ l. Triple-pure _ (λ w h. h)))
            (λ _.
              Triple-bind (λ _. P)
                (Triple-ok_or wg_server (internal server_unavailable) (λ s w e h. h)
                  (λ w e h. (refl, h)))
                λ server.
                  Triple-bind (λ _. P) (allocate-Framed env keys server P f 1 _ _)
                    (λ a. Triple-pure _ (λ w h. h)))
