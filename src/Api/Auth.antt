-- ===== src/Api/Auth.antt =====
-- api/auth.rs: the login, the change of its password, and the middleware in front of the protected
-- routes. A JSON Web Token is made and checked by a library. Times are seconds since 1970.
pub mod Tokens
use tpn_worker.Base.{
  ℕ, ◌+◌, ◌*◌, ltb, Bool, true, false, not, ◌&&◌, ◌||◌, ◌==◌, Text, eq_text, codes, is_empty, trim,
  ◌≡◌, ◌≤◌, after_prefix, split, List, [], ◌∷◌, Option, none, some, length, if◌then◌else◌,
}
use tpn_worker.Config.{AppConfig}
use tpn_worker.Api.Admin.{EnvFile, update_env_value}

pub record Claims : Type 0 where
  pub sub : Text
  pub exp : ℕ

-- `encode` with the default header, and `decode` with the default validation, at the time of the
-- call.
pub record Jwt : Type 0 where
  pub encode : Claims → Text → Option Text
  pub decode : ℕ → Text → Text → Option Claims

-- The library's promise: what it signs, it accepts under the same secret until it expires.
pub record IsLawful (jwt : Jwt) : Type 0 where
  pub accepts :
      (c : Claims) (secret token : Text) (now : ℕ)
      → jwt.encode c secret ≡ some token
      → now ≤ c.exp
      → (decoded : Claims) × (jwt.decode now token secret ≡ some decoded)

-- What the middleware reads of a request: the header, where it is readable text, and the query.
pub record Request : Type 0 where
  pub authorization : Option Text
  pub query : Option Text

abbrev pub token_seconds : ℕ
token_seconds = 30 * 24 * 60 * 60

abbrev pub is_some {ℓ} : {A : Type ℓ} → Option A → Bool
is_some none = false
is_some (some a) = true

-- `ct_eq`, behind the comparison of the lengths.
unfoldable pub same_password : Text → Text → Bool
same_password expected provided =
    if length expected == length provided then eq_text expected provided else false

-- The status and the file.
unfoldable pub update_password : Text → EnvFile → ℕ × EnvFile
update_password requested f =
    let password = trim requested in
    let (done, f') = update_env_value (codes "LOGIN_PASSWORD") password f in
    if ltb (length password) 4 then (400, f) else if done then (200, f') else (500, f')

unfoldable pub auth_check : AppConfig → Bool
auth_check config = not (is_empty config.login_password)

module _ (jwt : Jwt) (config : AppConfig) (now : ℕ) where
  unfoldable pub generate_token : Text → Option Text
  generate_token secret =
      jwt.encode (record { sub = codes "admin"; exp = now + token_seconds }) secret

  unfoldable pub verify_token : Text → Text → Bool
  verify_token token secret = is_some (jwt.decode now token secret)

  -- The status, and the token.
  unfoldable pub login : Text → ℕ × Option Text
  login password =
      if not (same_password config.login_password password)
      then (401, none)
      else elim (generate_token config.jwt_secret) [
        | none ↦ (500, none)
        | some token ↦ (200, some token)
      ]

  unfoldable pub header_verifies : Option Text → Bool
  header_verifies none = false
  header_verifies (some auth) =
      after_prefix (codes "Bearer ") (λ token. verify_token token config.jwt_secret) auth

  unfoldable pub value_verifies : Text → Bool
  value_verifies value =
      let token = trim value in not (is_empty token) && verify_token token config.jwt_secret

  unfoldable pub part_verifies : Text → Bool
  part_verifies = after_prefix (codes "token=") value_verifies

  unfoldable pub some_part_verifies : List Text → Bool
  some_part_verifies [] = false
  some_part_verifies (part ∷ parts) = part_verifies part || some_part_verifies parts

  unfoldable pub query_verifies : Option Text → Bool
  query_verifies none = false
  query_verifies (some query) = some_part_verifies (split b'&' query)

  -- Whether the request goes on to its handler; otherwise it is answered with 401.
  unfoldable pub auth_middleware : Request → Bool
  auth_middleware req =
      if is_empty config.login_password
      then true
      else if header_verifies req.authorization
      then true
      else query_verifies req.query
