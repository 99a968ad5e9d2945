-- ===== src/Proxy/Credentials.antt =====
-- proxy/credentials.rs: the usernames and passwords, in memory and in the table. `Files` is what the
-- directory of the password files holds; a directory that cannot be read is not modelled.
pub mod Sync
use tpn_worker.Base.{
  ℕ, zero, suc, ◌+◌, ◌-◌, ◌%◌, ◌==◌, ltb, pos, Bool, true, false, not, ◌&&◌, ◌||◌, Text, codes,
  eq_text, trim, is_empty, List, [], ◌∷◌, ◌++◌, map, Option, none, some, length, take,
  if◌then◌else◌, starts_with,
}
use mathlib.Core.List.{reverse}
use tpn_worker.Error.{internal, unknown_user}
use tpn_worker.World.{
  World, Env, M, Socks5Config, ◌>>=◌, ◌>>◌, pure, raise, now_ms, fetch, execute, draw,
}
use tpn_worker.Db.Table.{update_rows, where_rows}
use tpn_worker.Db.Socks5.{has_username, write_socks}

-- The map from usernames to passwords.
abbrev pub Credentials : Type 0
Credentials = List (Text × Text)

unfoldable pub password_of : Text → Credentials → Option Text
password_of u [] = none
password_of u ((v, p) ∷ cs) = if eq_text v u then some p else password_of u cs

unfoldable pub drop_user : Text → Credentials → Credentials
drop_user u [] = []
drop_user u ((v, p) ∷ cs) = let rest = drop_user u cs in if eq_text v u then rest else (v, p) ∷ rest

unfoldable pub insert : Text → Text → Credentials → Credentials
unfolding drop_user
insert u p cs = (u, p) ∷ drop_user u cs

unfoldable pub insert_all : List Socks5Config → Credentials → Credentials
insert_all [] cs = cs
insert_all (r ∷ rs) cs = insert_all rs (insert r.username r.password cs)

-- The comparison in constant time answers as the one of the bytes does.
unfoldable pub authenticate : Credentials → Text → Text → Bool
authenticate cs username password = elim (password_of username cs) [
  | none ↦ false
  | some stored ↦ eq_text stored password
]

-- `0-9a-z`, and `0-9A-Za-z`.
abbrev username_char : ℕ → ℕ
username_char i = if ltb i 10 then b'0' + i else b'a' + i - 10

abbrev password_char : ℕ → ℕ
password_char i = if ltb i 10 then b'0' + i else if ltb i 36 then b'A' + i - 10 else b'a' + i - 36

-- The files of a directory: their names, and the content of those that can be read.
pub record Files : Type 0 where
  pub exists : Bool
  pub names : List Text
  pub content : Text → Option Text

unfoldable pub ends_with : Text → Text → Bool
ends_with suffix s = starts_with (reverse suffix) (reverse s)

abbrev is_auth_file : Text → Bool
is_auth_file name =
    not (ends_with (codes ".password.used") name) && ends_with (codes ".password") name

-- `trim_end_matches` of a text: as often as it stands at the end. A text has no more ends than bytes.
unfoldable pub trim_suffix : ℕ → Text → Text → Text
trim_suffix zero suffix s = s
trim_suffix (suc n) suffix s =
    let shorter = trim_suffix n suffix (take (length s - length suffix) s) in
    if ends_with suffix s then shorter else s

unfoldable pub contains_name : List Text → Text → Bool
contains_name [] t = false
contains_name (u ∷ us) t = eq_text u t || contains_name us t

or_empty : Option Text → Text
or_empty none = []
or_empty (some t) = t

module _ (env : Env) where
  unfoldable pub draw_chars : (ℕ → ℕ) → ℕ → ℕ → M Text
  draw_chars char choices zero = pure []
  draw_chars char choices (suc n) = do
    i ← draw env
    rest ← draw_chars char choices n
    pure (char (i % choices) ∷ rest)

  unfoldable pub generate_username : M Text
  generate_username = do chars ← draw_chars username_char 36 8; pure (codes "u_" ++ chars)

  unfoldable pub generate_password : M Text
  generate_password = do chars ← draw_chars password_char 62 32; pure (codes "p_" ++ chars)

  -- In memory first, then in the table.
  unfoldable pub rotate_in_memory : Text → Text → M (Unit {0})
  rotate_in_memory username new_password w = elim (password_of username w.credentials) [
    | none ↦ raise (internal unknown_user) w
    | some old ↦ pure tt (record w { credentials = insert username new_password w.credentials })
  ]

  unfoldable pub rotate_password : Text → M Text
  rotate_password username = do
    new_password ← generate_password
    rotate_in_memory username new_password
    now ← now_ms env
    execute env λ w. record w {
      socks =
          update_rows (has_username username)
            (λ r. record r { password = new_password; updated = now }) w.socks;
    }
    pure new_password

  unfoldable pub load_from_db : M ℕ
  load_from_db = do
    configs ← fetch env (λ w. w.socks)
    λ w. pure (length configs) (record w { credentials = insert_all configs [] })

  unfoldable pub reload_from_db : M ℕ
  reload_from_db = load_from_db

  module _ (host : Text) (port : ℕ) where
    -- A credential that is written for the first time.
    abbrev fresh : Text → Text → Bool → Socks5Config
    fresh username password available = record {
      id = 0;
      ip_address = host;
      port = port;
      username = username;
      password = password;
      available = available;
      expires_at = pos 0;
      updated = pos 0;
    }

    unfoldable pub generate_socks : ℕ → M (List Socks5Config)
    generate_socks zero = pure []
    generate_socks (suc n) = do
      username ← generate_username
      password ← generate_password
      rest ← generate_socks n
      pure (fresh username password true ∷ rest)

    unfoldable pub store : List Socks5Config → M (Unit {0})
    store socks = do
      write_socks env socks
      λ w. pure tt (record w { credentials = insert_all socks w.credentials })

    unfoldable pub generate_credentials : ℕ → M (Unit {0})
    generate_credentials total_slots = do socks ← generate_socks total_slots; store socks

    -- Empty files are skipped.
    unfoldable pub read_files : Files → List Text → List Socks5Config
    unfolding or_empty
    read_files files [] = []
    read_files files (name ∷ names) =
        let rest = read_files files names in
        let password = trim (or_empty (files.content name)) in
        if is_empty password
        then rest
        else fresh (trim_suffix (length name) (codes ".password") name) password
            (not (contains_name files.names (name ++ codes ".used")))
          ∷ rest

    unfoldable pub migrate_from_password_files : Files → M (Unit {0})
    migrate_from_password_files files =
        store (read_files files (where_rows is_auth_file files.names))

    unfoldable pub sync_host_port : M (Unit {0})
    sync_host_port = execute env λ w. record w {
      socks =
          update_rows (λ r. not (eq_text r.ip_address host) || not (r.port == port))
            (λ r. record r { ip_address = host; port = port }) w.socks;
    }

    unfoldable pub initialize : ℕ → Files → M (Unit {0})
    initialize total_slots files = do
      if files.exists && not ((length (where_rows is_auth_file files.names) == 0))
          then migrate_from_password_files files
          else (do
            count ← load_from_db
            if count == 0 then generate_credentials total_slots else pure tt)
      sync_host_port
