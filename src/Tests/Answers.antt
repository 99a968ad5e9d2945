-- ===== src/Tests/Answers.antt =====
-- The answers about the worker.
use tpn_worker.Base.{pos, codes, eq_text, some, ◌≡◌, refl}
use tpn_worker.Base.Json.{str, num, get_in, get_field, obj, end, field}
use tpn_worker.World.{running}
use tpn_worker.Db.Table.{where_rows}
use tpn_worker.Db.Socks5.{count_available_socks, free_rows}
use tpn_worker.Db.Wireguard.{check_open_leases}
use tpn_worker.Api.Health.{About, health}
use tpn_worker.Api.Stats.{stats}
use tpn_worker.Tests.Fixtures.{still, three, config}

abbrev built : About
built = record {
  version = codes "1";
  start_time = codes "t";
  git_branch = codes "b";
  git_hash = codes "h";
}

version_told : get_field (codes "version") (health config built) ≡ some (str (codes "1"))
unfolding get_field get_in health eq_text
version_told = refl

socks5_told :
    get_field (codes "socks5") (stats still config (codes "1") (pos 5) three).0
    ≡ some (
        obj (
          field
            (codes "priority_slots")
            (num config.priority_slots)
            (field (codes "available_non_priority") (num (pos 2)) end)))
unfolding get_field get_in stats eq_text running check_open_leases count_available_socks free_rows
    where_rows
socks5_told = refl
