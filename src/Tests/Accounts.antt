-- ===== src/Tests/Accounts.antt =====
-- Credentials, the cache, and the addresses of peers.
use tpn_worker.Base.{
  ◌≤◌, pos, true, codes, eq_text, [], ◌∷◌, none, some, ◌≡◌, ◌≢◌, refl, length, arith, Bool-cases,
  inl, inr, if◌then◌else◌,
}
use tpn_worker.Base.Json.{str}
use tpn_worker.Error.{ok}
use tpn_worker.World.{World, running}
use tpn_worker.Config.{effective_peer_count}
use tpn_worker.Db.Table.{where_rows, any_row}
use tpn_worker.Db.Socks5.Names.{Unique}
use tpn_worker.Proxy.Credentials.{
  authenticate, password_of, generate_password, draw_chars, rotate_in_memory, rotate_password,
  reload_from_db, load_from_db,
}
use tpn_worker.Proxy.Credentials.Sync.{InSync, reload-InSync, rotate-InSync}
use tpn_worker.Service.Cache.{Entries, get, set, evict_expired, find}
use tpn_worker.Service.Cache.Freshness.{KeysUnique, read_at, read-set, reads_unchanged}
use tpn_worker.Wireguard.Server.{peer_ip, server_address}
use tpn_worker.Wireguard.Server.Addresses.{peer_ip_distinct}
use tpn_worker.Tests.Fixtures.{still, empty, credential, toy_server}
use tpn_worker.Tests.Fixtures.{config}

abbrev one_user : World
one_user = record empty {
  socks = credential 1 (codes "u_a") true (pos 0) ∷ [];
  credentials = (codes "u_a", codes "p_x") ∷ [];
}

Unique-one_user : Unique one_user.socks
unfolding any_row
Unique-one_user = (refl, tt)

reloaded : (reload_from_db still one_user).0 ≡ ok 1
unfolding running reload_from_db load_from_db
reloaded = refl

reload-InSync_example :
    (1 ≡ length one_user.socks)
    × ((reload_from_db still one_user).1.socks ≡ one_user.socks)
    × InSync (reload_from_db still one_user).1.credentials one_user.socks
reload-InSync_example = reload-InSync still one_user 1 Unique-one_user reloaded

InSync-one_user : InSync one_user.credentials one_user.socks
unfolding password_of where_rows
InSync-one_user v = elim (Bool-cases (eq_text (codes "u_a") v)) [
  | inl same ↦ rw same refl
  | inr other ↦ rw other refl
]

rotated :
    (rotate_password still (codes "u_a") one_user).0
    ≡ ok (codes "p_0123456789ABCDEFGHIJKLMNOPQRSTUV")
unfolding running rotate_password generate_password draw_chars rotate_in_memory password_of eq_text
rotated = refl

rotate-InSync_example :
    let w' = (rotate_password still (codes "u_a") one_user).1 in
    InSync w'.credentials w'.socks
    × (authenticate w'.credentials (codes "u_a") (codes "p_x")
        ≡ eq_text (codes "p_0123456789ABCDEFGHIJKLMNOPQRSTUV") (codes "p_x"))
rotate-InSync_example =
    rotate-InSync still (codes "u_a") (codes "p_0123456789ABCDEFGHIJKLMNOPQRSTUV") (codes "p_x")
      one_user InSync-one_user rotated

abbrev entries : Entries
entries =
    (codes "a", record { value = str (codes "1"); expires_at = some (pos 500) })
    ∷ (codes "b", record { value = str (codes "2"); expires_at = none })
    ∷ []

KeysUnique-entries : KeysUnique entries
unfolding find eq_text
KeysUnique-entries = (refl, (refl, tt))

reads_unchanged_example :
    (read_at (pos 900) (codes "b") (get (pos 600) (codes "a") entries).1
      ≡ read_at (pos 900) (codes "b") entries)
    × (read_at (pos 900) (codes "b") (evict_expired (pos 600) entries)
        ≡ read_at (pos 900) (codes "b") entries)
    × KeysUnique (get (pos 600) (codes "a") entries).1
    × KeysUnique (evict_expired (pos 600) entries)
reads_unchanged_example =
    reads_unchanged (pos 600) (pos 900) (codes "b") (codes "a") entries refl KeysUnique-entries

read-set_example :
    read_at (pos 900) (codes "a") (set (pos 600) (codes "a") (str (codes "3")) none entries) ≡ (
      if eq_text (codes "a") (codes "a")
      then some (str (codes "3"))
      else read_at (pos 900) (codes "a") entries)
read-set_example =
    read-set (pos 600) (pos 900) (codes "a") (codes "a") (str (codes "3")) none entries

three_peers : 3 ≤ effective_peer_count config
unfolding effective_peer_count
three_peers = omega arith

peer_ip_distinct_example :
    (peer_ip toy_server 1 ≢ peer_ip toy_server 3)
    × (peer_ip toy_server 1 ≢ server_address toy_server)
    × (2 ≤ (peer_ip toy_server 1).o3)
    × ((peer_ip toy_server 1).o3 ≤ 254)
peer_ip_distinct_example =
    peer_ip_distinct toy_server config 1 3 refl (omega arith) (omega (arith, three_peers))
      (omega arith) three_peers (λ e. ground arith)
