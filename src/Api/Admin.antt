-- ===== src/Api/Admin.antt =====
-- api/admin.rs: the update of settings in the .env file.
pub mod Content
pub mod Settings
use tpn_worker.Base.{
  ℕ, Bool, true, false, not, ◌&&◌, ◌||◌, ◌==◌, Text, codes, List, [], ◌∷◌, ◌++◌, map, Option, none,
  some, show_nat, join, lines, trim, starts_with, if◌then◌else◌,
}
use tpn_worker.Db.Table.{any_row}

-- `KEY=…`, or the same commented.
unfoldable pub sets : Text → Text → Bool
sets key line =
    let trimmed = trim line in
    starts_with (key ++ codes "=") trimmed || starts_with (codes "# " ++ (key ++ codes "=")) trimmed

abbrev pub new_line : Text → Text → Text
new_line key value = key ++ b'=' ∷ value

unfoldable pub replace_lines : Text → Text → List Text → List Text
replace_lines key value [] = []
replace_lines key value (l ∷ ls) =
    (if sets key l then new_line key value else l) ∷ replace_lines key value ls

unfoldable pub set_lines : Text → Text → List Text → List Text
unfolding replace_lines any_row
set_lines key value ls =
    if any_row (sets key) ls
    then replace_lines key value ls
    else replace_lines key value ls ++ new_line key value ∷ []

-- `ends_with('\n')`
unfoldable pub ends_line : Text → Bool
ends_line [] = false
ends_line (c ∷ []) = c == 10
ends_line (c ∷ d ∷ s) = ends_line (d ∷ s)

-- The new content of the file; a trailing newline is kept.
unfoldable pub updated_content : Text → Text → Text → Text
updated_content key value content =
    let new_content = join (10 ∷ []) (set_lines key value (lines content)) in
    if ends_line content && not (ends_line new_content) then new_content ++ 10 ∷ [] else new_content

-- The file, where it can be read, and whether it can be written.
pub record EnvFile : Type 0 where
  pub content : Option Text
  pub writable : Bool

-- Whether the update succeeds, and the file after it.
unfoldable pub update_env_value : Text → Text → EnvFile → Bool × EnvFile
update_env_value key value f = elim f.content [
  | none ↦ (false, f)
  | some t ↦
      if f.writable
      then (true, record f { content = some (updated_content key value t) })
      else (false, f)
]

pub record ConfigUpdateRequest : Type 0 where
  pub mining_pool_url : Option Text
  pub payment_address_evm : Option Text
  pub payment_address_bittensor : Option Text
  pub server_public_port : Option ℕ
  pub socks5_port : Option ℕ
  pub http_proxy_port : Option ℕ
  pub wireguard_server_port : Option ℕ

-- The keys that were updated, those that failed, and the file.
pub record Progress : Type 0 where
  pub updated : List Text
  pub errors : List Text
  pub file : EnvFile

abbrev pub validate_port : ℕ → Bool
validate_port port = not (port == 0)

unfoldable pub apply_text : Text → Text → Progress → Progress
apply_text key value p =
    let (done, f) = update_env_value key value p.file in
    if done
    then record { updated = p.updated ++ key ∷ []; errors = p.errors; file = f }
    else record { updated = p.updated; errors = p.errors ++ key ∷ []; file = f }

unfoldable pub update_text : Text → Option Text → Progress → Progress
update_text key none p = p
update_text key (some value) p = apply_text key value p

unfoldable pub update_port : Text → Option ℕ → Progress → Progress
update_port key none p = p
update_port key (some port) p =
    if validate_port port
    then apply_text key (show_nat port) p
    else record p { errors = p.errors ++ key ∷ [] }

-- The status of the response.
abbrev config_status : Progress → ℕ
config_status p = elim p.errors [ e ∷ es ↦ 500 | [] ↦ elim p.updated [ [] ↦ 400 | k ∷ ks ↦ 200 ] ]

unfoldable pub update_config : ConfigUpdateRequest → EnvFile → ℕ × Progress
update_config req f =
    let start : Progress = record { updated = []; errors = []; file = f } in
    let texts : Progress =
      update_text (codes "PAYMENT_ADDRESS_BITTENSOR") req.payment_address_bittensor (
        update_text (codes "PAYMENT_ADDRESS_EVM") req.payment_address_evm
          (update_text (codes "MINING_POOL_URL") req.mining_pool_url start)) in
    let ports : Progress = update_port (codes "WIREGUARD_SERVERPORT") req.wireguard_server_port (
      update_port (codes "HTTP_PROXY_PORT") req.http_proxy_port (
        update_port (codes "SOCKS5_PORT") req.socks5_port
          (update_port (codes "SERVER_PUBLIC_PORT") req.server_public_port texts))) in
    (config_status ports, ports)
