-- ===== src/Api/Lease/Tokens.antt =====
-- What a lease that is granted has passed, and the token that it is answered with.
use tpn_worker.Base.{
  arith, sym, ℤ, pos, leb_ℤ, Bool, true, false, not, ◌&&◌, ◌||◌, [], Text, codes, eq_text,
  eq_text_refl, Option, none, some, ◌≡◌, refl,
}
use tpn_worker.Error.{AppError, Result, ok, err, validation, extend_expires_required}
use tpn_worker.World.{World, Env, M}
use tpn_worker.World.Triple.{
  Outcome, Triple, Triple-bind, Triple-then, Triple-pure, Triple-raise, Triple-if, Triple-weaken,
  Triple-answer,
}
use tpn_worker.Config.{AppConfig}
use tpn_worker.Crypto.{sign_lease_token, verify_lease_token}
use tpn_worker.Wireguard.Server.{Keys, Server}
use tpn_worker.Service.LeaseManager.{LeaseResult}
use tpn_worker.Api.Lease.{
  Outside, LeaseParams, Response, or_else, lease_seconds_of, require, validate, check_token,
  respond, lease_new, is_some, header,
}

abbrev pub Any : World → Type 0
Any w = Unit

abbrev pub Anyhow : AppError → World → Type 0
Anyhow x w = Unit

-- An operation of which nothing is known.
pub anything {ℓ} : {A : Type ℓ} (P : World → Type 0) (m : M A) → Triple P m (λ _. Any) Anyhow
anything P m = record { at = λ w p. outcome (m w).1 (m w).0 }
  where
    outcome : {A : Type ℓ} (w : World) (r : Result A) → Outcome (λ _. Any) Anyhow r w
    outcome w (ok a) = tt
    outcome w (err e) = tt

-- A condition that does not depend on the state.
pub given {ℓ} :
    {A : Type ℓ} {C : Type 0} {m : M A} {Q : A → World → Type 0}
    → (C → Triple Any m Q Anyhow)
    → Triple (λ _. C) m Q Anyhow
given next = record { at = λ w c. (next c).at w tt }

module _ (env : Env) (keys : Keys) (config : AppConfig) (wg_server : Option Server)
    (o : Outside) where
  pub require-true :
      (b : Bool) (e : AppError)
      → Triple Any (require env keys config wg_server o b e) (λ _ _. b ≡ true) Anyhow
  unfolding require
  require-true b e =
      Triple-if b (λ passed. Triple-pure tt (λ w h. passed)) (λ _. Triple-raise e (λ w h. tt))

  -- The parameters of a request that is granted, and the token of a lease that it extends.
  abbrev pub Checked : LeaseParams → Type 0
  Checked p =
      (leb_ℤ (lease_seconds_of o p.lease_seconds p.lease_minutes) (pos 0) ≡ false)
      × ((eq_text (or_else p.format (codes "json")) (codes "json")
            || eq_text (or_else p.format (codes "json")) (codes "text"))
          ≡ true)
      × ((eq_text (or_else p.lease_type (codes "wireguard")) (codes "wireguard")
            || eq_text (or_else p.lease_type (codes "wireguard")) (codes "socks5"))
          ≡ true)
      × ((r : Text)
          → p.extend_ref ≡ some r
          → (is_some p.extend_expires_at ≡ true)
            × (verify_lease_token o.mac r (or_else p.lease_token []) config.lease_token_secret
                ≡ true))

  -- The token of a response belongs to its lease.
  abbrev pub Verifies : Response → Type 0
  Verifies r =
      (lease_ref token : Text)
      → r.lease_ref ≡ some lease_ref
      → r.lease_token ≡ some token
      → verify_lease_token o.mac lease_ref token config.lease_token_secret ≡ true

  header_value : (t : Text) {s : Text} → header env keys config wg_server o t ≡ some s → t ≡ s
  unfolding header
  header_value t e = ground arith

  respond-Verifies :
      (format : Text) (l : LeaseResult) → Verifies (respond env keys config wg_server o format l)
  unfolding respond verify_lease_token sign_lease_token
  respond-Verifies format l lease_ref token is_ref is_token =
      rw (sym (header_value _ is_ref), sym (header_value _ is_token)) (eq_text_refl _)

  refused : (b : Bool) → not b ≡ true → b ≡ false
  refused b h = ground arith

  abbrev Authorized : LeaseParams → Text → Type 0
  Authorized p r =
      verify_lease_token o.mac r (or_else p.lease_token []) config.lease_token_secret ≡ true

  token-Authorized :
      (p : LeaseParams) (extend_ref : Option Text)
      → Triple Any
          (check_token env keys config wg_server o extend_ref p.lease_token)
          (λ _ _. (r : Text) → extend_ref ≡ some r → Authorized p r)
          Anyhow
  unfolding check_token
  token-Authorized p none = Triple-pure tt (λ w h r e. cc e)
  token-Authorized p (some r) =
      Triple-weaken (require-true _ _) (λ w h. tt) (λ a w h r' e. cc (e, h)) (λ x w h. tt)

  abbrev Valid : LeaseParams → ℤ → Text → Text → Type 0
  Valid p s format lease_type =
      (leb_ℤ s (pos 0) ≡ false)
      × ((eq_text format (codes "json") || eq_text format (codes "text")) ≡ true)
      × ((eq_text lease_type (codes "wireguard") || eq_text lease_type (codes "socks5")) ≡ true)
      × ((is_some p.extend_ref && not (is_some p.extend_expires_at)) ≡ false)

  validate-Valid :
      (p : LeaseParams) (s : ℤ) (format lease_type : Text)
      → Triple Any
          (validate env keys config wg_server o p s format lease_type)
          (λ _ _. Valid p s format lease_type)
          Anyhow
  unfolding validate
  validate-Valid p s format lease_type =
      Triple-then (λ _. not (leb_ℤ s (pos 0)) ≡ true) (require-true _ _)
        (given λ positive.
          Triple-then (λ _. (eq_text format (codes "json") || eq_text format (codes "text")) ≡ true)
            (require-true _ _)
            (given λ good_format.
              Triple-then
                (λ _.
                  (eq_text lease_type (codes "wireguard") || eq_text lease_type (codes "socks5"))
                  ≡ true)
                (require-true _ _)
                (given λ good_type.
                  Triple-weaken
                    (require-true (not (is_some p.extend_ref && not (is_some p.extend_expires_at)))
                      (validation extend_expires_required))
                    (λ w h. tt) (λ a w h. (refused _ positive, good_format, good_type, refused _ h))
                    (λ x w h. tt))))

  has_expiry :
      (extend_ref expires : Option Text) {r : Text}
      → (is_some extend_ref && not (is_some expires)) ≡ false
      → extend_ref ≡ some r
      → is_some expires ≡ true
  has_expiry none expires h e = cc e
  has_expiry (some r) none h e = cc h
  has_expiry (some r) (some t) h e = refl

  handler-Checked :
      (addr : Text) (p : LeaseParams)
      → Triple Any
          (lease_new env keys config wg_server o addr p)
          (λ r w. Checked p × Verifies r)
          Anyhow
  unfolding lease_new
  handler-Checked addr p = Triple-then Any (anything Any _) (
      Triple-then
        (λ _.
          Valid p (lease_seconds_of o p.lease_seconds p.lease_minutes)
            (or_else p.format (codes "json")) (or_else p.lease_type (codes "wireguard")))
        (validate-Valid p _ _ _)
        (given λ valid.
          Triple-then (λ _. (r : Text) → p.extend_ref ≡ some r → Authorized p r)
            (token-Authorized p p.extend_ref)
            (given λ authorized.
              Triple-bind (λ _. Any) (anything Any _)
                (λ result. Triple-pure _ (λ w h. (
                  (
                    valid.0,
                    valid.1,
                    valid.2,
                    λ r e. (has_expiry p.extend_ref p.extend_expires_at valid.3 e, authorized r e),
                  ),
                  respond-Verifies _ result,
                ))))))

-- A request that is granted asks for a positive time, in a known format and for a known kind of
-- lease; where it extends a lease it names an expiry and has the token of that lease; and the token
-- in the response is the one of the lease in the response, where both are sent.
pub lease_new_granted :
    (env : Env) (keys : Keys) (config : AppConfig) (wg_server : Option Server) (o : Outside)
    (addr : Text) (p : LeaseParams) (w : World) (r : Response)
    → (lease_new env keys config wg_server o addr p w).0 ≡ ok r
    → Checked env keys config wg_server o p × Verifies env keys config wg_server o r
lease_new_granted env keys config wg_server o addr p w r granted =
    Triple-answer (handler-Checked env keys config wg_server o addr p) w tt granted
