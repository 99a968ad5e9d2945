-- ===== src/Api/Lease.antt =====
-- api/lease.rs: GET /api/lease/new. The query's texts come decoded; parsing a number of minutes goes
-- by floats, and is a parameter.
pub mod ServerErrors
pub mod Resolution
pub mod Rejected
pub mod Tokens
pub mod Access
use tpn_worker.Base.{
  ℤ, pos, leb_ℤ, Bool, true, false, not, ◌&&◌, ◌||◌, ◌^◌, Text, eq_text, codes, List, [], ◌∷◌,
  Option, none, some, parse_int, if◌then◌else◌, show_int,
}
use tpn_worker.Base.Json.{Json, obj, end}
use tpn_worker.Error.{
  AppError, validation, unauthorized, denied, bad_token, invalid_lease_seconds, invalid_format,
  invalid_type, extend_expires_required,
}
use tpn_worker.World.{Env, M, ◌>>=◌, ◌>>◌, pure, raise, catch}
use tpn_worker.Config.{AppConfig, is_worker, effective_mining_pool_url}
use tpn_worker.Crypto.{Mac, sign_lease_token, verify_lease_token}
use tpn_worker.Net.Ip.{is_local_ip, sanitize_ipv4}
use tpn_worker.Net.Dns.{resolve_domain_to_ipv4s}
use tpn_worker.Service.LeaseManager.{LeaseResult, get_worker_config}
use tpn_worker.Wireguard.Server.{Keys, Server}

pub record LeaseParams : Type 0 where
  pub lease_seconds : Option Text
  pub lease_minutes : Option Text
  pub format : Option Text
  pub lease_type : Option Text
  pub priority : Option Text
  pub extend_ref : Option Text
  pub extend_expires_at : Option Text
  pub lease_token : Option Text

pub data Body : Type 0 where
  text : Text → Body
  json : Json → Body

-- The response of status 200: its headers, left out where they do not parse, and its body.
pub record Response : Type 0 where
  pub lease_ref : Option Text
  pub lease_expires : Option Text
  pub lease_token : Option Text
  pub body : Body

-- What the handler takes from third-party code: the MAC, `(mins * 60.0) as i64` of a text, and
-- whether a text is a header's value.
pub record Outside : Type 0 where
  pub mac : Mac
  pub seconds_of_minutes : Text → ℤ
  pub is_header_value : Text → Bool

abbrev pub or_else : Option Text → Text → Text
or_else none d = d
or_else (some t) d = t

abbrev parse_i64 : Text → Option ℤ
parse_i64 s = parse_int (2 ^ 63) s

abbrev int_or_zero : Option ℤ → ℤ
int_or_zero none = pos 0
int_or_zero (some n) = n

unfoldable pub lease_seconds_of : Outside → Option Text → Option Text → ℤ
lease_seconds_of o (some ls) lm = int_or_zero (parse_i64 ls)
lease_seconds_of o none (some lm) = o.seconds_of_minutes lm
lease_seconds_of o none none = pos 0

unfoldable pub contains_text : List Text → Text → Bool
contains_text [] t = false
contains_text (u ∷ us) t = eq_text u t || contains_text us t

abbrev pub is_some {ℓ} : {A : Type ℓ} → Option A → Bool
is_some none = false
is_some (some a) = true

abbrev is_true : Option Text → Bool
is_true none = false
is_true (some t) = eq_text t (codes "true")

abbrev parse_expires : Option Text → Option ℤ
parse_expires none = none
parse_expires (some v) = parse_i64 v

module _ (env : Env) (keys : Keys) (config : AppConfig) (wg_server : Option Server)
    (o : Outside) where
  unfoldable pub require : Bool → AppError → M (Unit {0})
  require b e = if b then pure tt else raise e

  -- Only the mining pool's addresses and the local networks may ask a worker for leases. A name
  -- that does not resolve allows no address.
  unfoldable pub check_caller : Text → M (Unit {0})
  check_caller addr =
      if is_worker config && not config.ci_mock_worker_responses
      then (do
        let caller_ip = sanitize_ipv4 addr
        allowed ←
            catch (resolve_domain_to_ipv4s env (effective_mining_pool_url config)) (λ e. pure [])
        require
            (contains_text allowed caller_ip
              || is_local_ip caller_ip config.tpn_internal_subnet config.tpn_external_subnet)
            (unauthorized denied))
      else pure tt

  unfoldable pub validate : LeaseParams → ℤ → Text → Text → M (Unit {0})
  validate p lease_seconds format lease_type = do
    require (not (leb_ℤ lease_seconds (pos 0))) (validation invalid_lease_seconds)
    require (eq_text format (codes "json") || eq_text format (codes "text"))
        (validation invalid_format)
    require (eq_text lease_type (codes "wireguard") || eq_text lease_type (codes "socks5"))
        (validation invalid_type)
    require (not (is_some p.extend_ref && not (is_some p.extend_expires_at)))
        (validation extend_expires_required)

  unfoldable pub check_token : Option Text → Option Text → M (Unit {0})
  check_token none token = pure tt
  check_token (some r) token =
      require (verify_lease_token o.mac r (or_else token []) config.lease_token_secret)
        (unauthorized bad_token)

  header : Text → Option Text
  header t = if o.is_header_value t then some t else none

  body_of : Text → LeaseResult → Body
  body_of format r =
      if eq_text format (codes "text")
      then text (or_else r.config_text [])
      else json (elim r.config_json [ none ↦ obj end | some j ↦ j ])

  unfoldable pub respond : Text → LeaseResult → Response
  unfolding header body_of
  respond format r = record {
    lease_ref = header r.lease_ref;
    lease_expires = header (show_int r.lease_expires_at);
    lease_token = header (sign_lease_token o.mac r.lease_ref config.lease_token_secret);
    body = body_of format r;
  }

  unfoldable pub lease_new : Text → LeaseParams → M Response
  lease_new addr p = do
    check_caller addr
    let format = or_else p.format (codes "json")
    let lease_type = or_else p.lease_type (codes "wireguard")
    let lease_seconds = lease_seconds_of o p.lease_seconds p.lease_minutes
    let priority = is_true p.priority
    validate p lease_seconds format lease_type
    check_token p.extend_ref p.lease_token
    result ←
        get_worker_config env keys config wg_server lease_type lease_seconds priority format
          p.extend_ref (parse_expires p.extend_expires_at)
    pure (respond format result)
