-- ===== src/Tests/Extensions.antt =====
-- Extensions of leases.
use tpn_worker.Base.{pos, true, false, codes, eq_text, [], ◌∷◌, ◌≡◌, ◌≢◌, refl, arith}
use tpn_worker.Error.{ok, err, lease_unavailable, not_extendable}
use tpn_worker.World.{World, running}
use tpn_worker.Db.Table.{rows_affected, where_rows, any_row}
use tpn_worker.Db.Socks5.{extend_socks5_lease}
use tpn_worker.Db.Socks5.Names.{Unique}
use tpn_worker.Db.Socks5.Extension.{
  Extended as SocksExtended, extend_socks5_cas, extend_socks5_refused, extend_socks5_once,
}
use tpn_worker.Db.Wireguard.{extend_wireguard_lease}
use tpn_worker.Db.Wireguard.Ids.{Ordered}
use tpn_worker.Db.Wireguard.Extension.{
  Extended as PeerExtended, extend_wireguard_cas, extend_wireguard_once,
}
use tpn_worker.Tests.Fixtures.{still, empty, credential, one_peer}

abbrev leased : World
leased = record empty {
  socks =
      credential 1 (codes "u_a") false (pos 2000) ∷ credential 2 (codes "u_b") true (pos 0) ∷ [];
}

Unique-leased : Unique leased.socks
unfolding any_row eq_text
Unique-leased = (refl, (refl, tt))

abbrev longer : World
longer = (extend_socks5_lease still (codes "u_a") (pos 2000) (pos 5000) leased).1

extended : (extend_socks5_lease still (codes "u_a") (pos 2000) (pos 5000) leased).0 ≡ ok (pos 5000)
unfolding running extend_socks5_lease rows_affected where_rows eq_text
extended = refl

extend_socks5_cas_example :
    (pos 5000 ≡ pos 5000)
    × SocksExtended still (codes "u_a") (pos 2000) (pos 5000) leased.socks longer.socks
extend_socks5_cas_example =
    extend_socks5_cas still (codes "u_a") (pos 2000) (pos 5000) (pos 5000) leased Unique-leased
      extended

stale :
    (extend_socks5_lease still (codes "u_a") (pos 1999) (pos 5000) leased).0
    ≡ err (lease_unavailable not_extendable)
unfolding running extend_socks5_lease rows_affected where_rows eq_text
stale = refl

extend_socks5_refused_example :
    (extend_socks5_lease still (codes "u_a") (pos 1999) (pos 5000) leased).1.socks ≡ leased.socks
extend_socks5_refused_example =
    extend_socks5_refused still (codes "u_a") (pos 1999) (pos 5000) leased
      (lease_unavailable not_extendable) Unique-leased stale

extend_socks5_once_example :
    (extend_socks5_lease still (codes "u_a") (pos 2000) (pos 7000) longer).0 ≢ ok (pos 7000)
extend_socks5_once_example =
    extend_socks5_once still still (codes "u_a") (pos 2000) (pos 5000) (pos 7000) (pos 5000)
      (pos 7000) leased Unique-leased (λ e. ground arith) extended

peer_extended :
    (extend_wireguard_lease still (pos 1) (pos 2000) (pos 5000) one_peer).0 ≡ ok (pos 5000)
unfolding running extend_wireguard_lease rows_affected where_rows
peer_extended = refl

in_range : Ordered 1 253 one_peer.leases
in_range = (omega arith, omega arith, tt)

extend_wireguard_cas_example :
    (pos 5000 ≡ pos 5000)
    × PeerExtended still 1 253
        (pos 1)
        (pos 2000)
        (pos 5000)
        one_peer.leases
        (extend_wireguard_lease still (pos 1) (pos 2000) (pos 5000) one_peer).1.leases
extend_wireguard_cas_example =
    extend_wireguard_cas still 1 253 (pos 1) (pos 2000) (pos 5000) (pos 5000) one_peer in_range
      peer_extended

extend_wireguard_once_example :
    (extend_wireguard_lease still
      (pos 1)
      (pos 2000)
      (pos 7000)
      (extend_wireguard_lease still (pos 1) (pos 2000) (pos 5000) one_peer).1).0
    ≢ ok (pos 7000)
extend_wireguard_once_example =
    extend_wireguard_once still still 1 253 (pos 1) (pos 2000) (pos 5000) (pos 7000) (pos 5000)
      (pos 7000) one_peer in_range (λ e. ground arith) peer_extended
