-- ===== src/Tests/Logins.antt =====
-- Logins and requests behind the middleware.
use tpn_worker.Base.{
  ℕ, ◌+◌, ◌≤◌, true, false, ◌&&◌, Text, eq_text, eq_text_refl, starts_with, codes, Option, none,
  some, [], ◌∷◌, ◌++◌, ◌≡◌, ◌≢◌, ◌↔◌, ◌⊎◌, refl, arith, leb, if◌then◌else◌, trim, trim_start, split,
  after_prefix, strip_prefix, join, lines,
}
use tpn_worker.Api.Admin.{EnvFile, update_env_value, updated_content, set_lines, sets, ends_line}
use tpn_worker.Api.Auth.{
  Jwt, IsLawful, Request, Claims, token_seconds, login, auth_middleware, header_verifies,
  query_verifies, some_part_verifies, part_verifies, value_verifies, verify_token, generate_token,
  same_password, update_password,
}
use tpn_worker.Api.Auth.Tokens.{InHeader, InQuery, auth_middleware_admits, login-auth_middleware}
use tpn_worker.Tests.Fixtures.{config}

-- A token is the secret, and tells nothing of its time.
abbrev toy_jwt : Jwt
toy_jwt = record {
  encode = λ c secret. some (c.exp ∷ secret);
  decode = λ now token secret. elim token [
    | [] ↦ none
    | e ∷ t ↦
        if eq_text t secret && leb now e
        then some (record { sub = codes "admin"; exp = e })
        else none
  ];
}

toy_accepts :
    (c : Claims) (secret token : Text) (now : ℕ)
    → toy_jwt.encode c secret ≡ some token
    → now ≤ c.exp
    → (decoded : Claims) × (toy_jwt.decode now token secret ≡ some decoded)
toy_accepts c secret token now e le =
    let same : c.exp ∷ secret ≡ token = cc e in
    rw (← same) (record { sub = codes "admin"; exp = c.exp }, ground (arith, eq_text_refl secret))

toy_jwt-IsLawful : IsLawful toy_jwt
toy_jwt-IsLawful = record { accepts = toy_accepts }

abbrev request : Request
request = record { authorization = none; query = some (codes "lines=5&token= x ") }

auth_middleware_admits_example : (auth_middleware toy_jwt config 10 request ≡ true) ↔ (
    (config.login_password ≡ [])
    ⊎ (InHeader toy_jwt config 10 request.authorization)
    ⊎ (InQuery toy_jwt config 10 request.query))
auth_middleware_admits_example = auth_middleware_admits toy_jwt config 10 request

login_example :
    (((login toy_jwt config 10 (codes "p")).0 ≡ 401) ↔ (codes "p" ≢ config.login_password))
    × ((token : Text)
        → (login toy_jwt config 10 (codes "p")).1 ≡ some token
        → (codes "p" ≡ config.login_password)
          × ((later : ℕ) (query : Option Text)
              → later ≤ 10 + token_seconds
              → auth_middleware toy_jwt config later
                  (record { authorization = some (codes "Bearer " ++ token); query = query })
                ≡ true))
login_example = login-auth_middleware toy_jwt config 10 (codes "p") toy_jwt-IsLawful

refused : auth_middleware toy_jwt config 10 request ≡ false
unfolding auth_middleware header_verifies query_verifies some_part_verifies part_verifies
    value_verifies verify_token split after_prefix strip_prefix trim trim_start eq_text
refused = refl

logged_in : (login toy_jwt config 10 (codes "p")).0 ≡ 200
unfolding login generate_token same_password eq_text
logged_in = refl

abbrev env_file : EnvFile
env_file = record { content = some (codes "LOGIN_PASSWORD=p\n"); writable = true }

changed :
    update_password (codes " secret ") env_file
    ≡ (200, record { content = some (codes "LOGIN_PASSWORD=secret\n"); writable = true })
unfolding update_password update_env_value updated_content set_lines sets trim trim_start
    after_prefix strip_prefix starts_with eq_text join lines split ends_line
changed = refl

too_short : (update_password (codes " abc ") env_file).0 ≡ 400
unfolding update_password trim trim_start
too_short = refl
