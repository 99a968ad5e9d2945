-- ===== src/Tests/Settings.antt =====
-- Updates of the .env file.
use tpn_worker.Base.{
  true, false, not, is_plain, ◌||◌, codes, eq_text, starts_with, strip_prefix, trim, trim_start,
  join, lines, split, Text, none, some, ◌≡◌, refl,
}
use tpn_worker.Db.Table.{any_row, all_rows, where_rows}
use tpn_worker.Api.Admin.{
  sets, new_line, set_lines, ends_line, updated_content, update_env_value, update_config,
  update_text, update_port, EnvFile, ConfigUpdateRequest,
}
use tpn_worker.Api.Admin.Content.{ends_blank}
use tpn_worker.Api.Admin.Settings.{update_env_value_settled}

abbrev before : Text
before = codes "# PORT=1\nHOST=a\nPORT=2\n"

abbrev env_file : EnvFile
env_file = record { content = some before; writable = true }

known : sets (codes "PORT") (new_line (codes "PORT") (codes "3")) ≡ true
unfolding sets starts_with strip_prefix trim trim_start
known = refl

one_line : is_plain (new_line (codes "PORT") (codes "3")) ≡ true
unfolding is_plain
one_line = refl

plain_lines : all_rows is_plain (lines before) ≡ true
unfolding is_plain lines all_rows split
plain_lines = refl

no_blank_end : ends_blank (lines before) ≡ false
unfolding lines split ends_blank
no_blank_end = refl

update_env_value_settled_example :
    let t = updated_content (codes "PORT") (codes "3") before in
    let g = record env_file { content = some t } in
    (update_env_value (codes "PORT") (codes "3") env_file ≡ (true, g))
    × (any_row (sets (codes "PORT")) (lines t) ≡ true)
    × (all_rows
          (λ l. not (sets (codes "PORT") l) || eq_text l (new_line (codes "PORT") (codes "3")))
          (lines t)
        ≡ true)
    × (where_rows (λ l. not (sets (codes "PORT") l)) (lines t)
        ≡ where_rows (λ l. not (sets (codes "PORT") l)) (lines before))
    × (update_env_value (codes "PORT") (codes "3") g ≡ (true, g))
update_env_value_settled_example =
    update_env_value_settled (codes "PORT") (codes "3") before env_file refl refl known one_line
      plain_lines no_blank_end

rewritten :
    updated_content (codes "PORT") (codes "3") (codes "# PORT=1\nHOST=a\n")
    ≡ codes "PORT=3\nHOST=a\n"
unfolding updated_content set_lines sets starts_with strip_prefix trim trim_start join lines split
    any_row ends_line
rewritten = refl

abbrev file : EnvFile
file = record { content = some (codes "HOST=a"); writable = true }

abbrev zero_port : ConfigUpdateRequest
zero_port = record {
  mining_pool_url = none;
  payment_address_evm = none;
  payment_address_bittensor = none;
  server_public_port = some 0;
  socks5_port = none;
  http_proxy_port = none;
  wireguard_server_port = none;
}

refused : (update_config zero_port file).0 ≡ 500
unfolding update_config update_text update_port
refused = refl
