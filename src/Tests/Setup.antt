-- ===== src/Tests/Setup.antt =====
-- The initialization on a table in which a username stands twice.
use tpn_worker.Base.{ℕ, pos, true, Text, codes, eq_text, [], ◌∷◌, ◌≡◌, refl}
use tpn_worker.Error.{ok}
use tpn_worker.World.{World, Socks5Config}
use tpn_worker.Db.Table.{all_rows, any_row, where_rows}
use tpn_worker.Db.Socks5.{has_username}
use tpn_worker.Db.Socks5.Names.{Unique}
use tpn_worker.Db.Init.{highest_only, init_database, max_id}
use tpn_worker.Db.Init.Usernames.{rising}
use tpn_worker.Db.Init.Kept.{SameTables, init_database_lem}
use tpn_worker.Tests.Fixtures.{still, empty, config}
use tpn_worker.Tests.Retention.{config-is_worker}

abbrev named : ℕ → Text → Socks5Config
named i u = record {
  id = i;
  ip_address = codes "h";
  port = 1080;
  username = u;
  password = codes "p";
  available = true;
  expires_at = pos 0;
  updated = pos 0;
}

abbrev legacy : World
legacy = record empty {
  socks = named 1 (codes "a") ∷ named 2 (codes "b") ∷ named 5 (codes "a") ∷ [];
}

legacy-rising : rising legacy.socks ≡ true
unfolding rising all_rows
legacy-rising = refl

newest_kept : highest_only legacy.socks ≡ named 2 (codes "b") ∷ named 5 (codes "a") ∷ []
unfolding highest_only where_rows max_id eq_text
newest_kept = refl

init_database_lem_example :
    let r = init_database still config legacy in
    (r.0 ≡ ok tt)
    × Unique r.1.socks
    × ((u : Text) → any_row (has_username u) r.1.socks ≡ any_row (has_username u) legacy.socks)
    × SameTables legacy r.1
init_database_lem_example =
    init_database_lem still config legacy (λ k. refl) config-is_worker refl legacy-rising
