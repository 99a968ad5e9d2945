-- ===== src/Api/Auth/Tokens.antt =====
-- Who passes the middleware.
use tpn_worker.Base.{
  ℕ, ◌+◌, ◌≤◌, Bool, true, false, not, ◌&&◌, ◌||◌, Text, eq_text_refl, eq_text→eq, codes, is_empty,
  trim, after_prefix, after_prefix-append, after_prefix-eq_true, split, List, [], ◌∷◌, ◌++◌, Option,
  none, some, get_elem?, zero, suc, ◌≡◌, ◌≢◌, ◌↔◌, ◌⊎◌, inl, inr, if◌then◌else◌, refl, ap, sym, ◌∙◌,
  arith, Bool-cases, Option-cases,
}
use tpn_worker.Config.{AppConfig}
use tpn_worker.Api.Auth.{
  Jwt, IsLawful, Request, Claims, token_seconds, same_password, generate_token, verify_token, login,
  header_verifies, value_verifies, part_verifies, some_part_verifies, query_verifies,
  auth_middleware,
}

pub same_password_iff : (a b : Text) → (same_password a b ≡ true) ↔ (a ≡ b)
unfolding same_password
same_password_iff a b =
    (λ h. eq_text→eq a b (ground arith), λ e. rw e (ground (arith, eq_text_refl b)))

module _ (jwt : Jwt) (config : AppConfig) (now : ℕ) where
  -- A text that the library accepts as a token at this time.
  abbrev pub Verifies : Text → Type 0
  Verifies token = (c : Claims) × (jwt.decode now token config.jwt_secret ≡ some c)

  abbrev pub InHeader : Option Text → Type 0
  InHeader header = (token : Text) × (header ≡ some (codes "Bearer " ++ token)) × Verifies token

  -- One of the parts of the query, split at `&`, is `token=` and a token among white space.
  abbrev pub AsPart : List Text → Type 0
  AsPart parts =
      (i : ℕ) × (value : Text) × (get_elem? parts i ≡ some (codes "token=" ++ value))
      × (trim value ≢ [])
      × Verifies (trim value)

  abbrev pub InQuery : Option Text → Type 0
  InQuery query = (q : Text) × (query ≡ some q) × AsPart (split b'&' q)

  verifies :
      (token : Text) → (verify_token jwt config now token config.jwt_secret ≡ true) ↔ Verifies token
  unfolding verify_token
  verifies token = elim (Option-cases (jwt.decode now token config.jwt_secret)) [
    | inl missing ↦ rw missing (λ h. cc, λ v. cc (v.1))
    | inr (c, found) ↦ rw found (λ h. (c, refl), λ v. refl)
  ]

  header : (h : Option Text) → (header_verifies jwt config now h ≡ true) ↔ InHeader h
  unfolding header_verifies
  header none = (λ h. cc, λ p. cc (p.1))
  header (some auth) =
      let accepts = λ (token : Text). verify_token jwt config now token config.jwt_secret in
      (
        λ h.
            let (token, e, v) = after_prefix-eq_true (codes "Bearer ") accepts auth h in
            (token, ap some e, (verifies token).0 v),
        λ p.
            let e : auth ≡ codes "Bearer " ++ p.0 = cc (p.1) in
            ap (after_prefix (codes "Bearer ") accepts) e
            ∙ after_prefix-append (codes "Bearer ") accepts p.0
            ∙ (verifies p.0).1 p.2,
      )

  abbrev IsToken : Text → Type 0
  IsToken part =
      (value : Text) × (part ≡ codes "token=" ++ value) × (trim value ≢ []) × Verifies (trim value)

  value_iff :
      (value : Text)
      → (value_verifies jwt config now value ≡ true) ↔ ((trim value ≢ []) × Verifies (trim value))
  unfolding value_verifies
  value_iff value = accepted (trim value)
    where
      accepted :
          (token : Text)
          → ((not (is_empty token) && verify_token jwt config now token config.jwt_secret) ≡ true)
            ↔ ((token ≢ []) × Verifies token)
      accepted [] = (λ h. cc, λ p. absurd (p.0 refl))
      accepted (c ∷ t) = (λ h. (λ e. cc, (verifies (c ∷ t)).0 h), λ p. (verifies (c ∷ t)).1 p.1)

  part : (p : Text) → (part_verifies jwt config now p ≡ true) ↔ IsToken p
  unfolding part_verifies
  part p = (
    λ h.
        let (value, e, v) =
          after_prefix-eq_true (codes "token=") (value_verifies jwt config now) p h in
        (value, e, ((value_iff value).0 v).0, ((value_iff value).0 v).1),
    λ t.
        ap (after_prefix (codes "token=") (value_verifies jwt config now)) t.1
        ∙ after_prefix-append (codes "token=") (value_verifies jwt config now) t.0
        ∙ (value_iff t.0).1 (t.2, t.3),
  )

  at_index :
      (x : Text) (xs : List Text)
      → (AsPart xs → some_part_verifies jwt config now xs ≡ true)
      → (i : ℕ) (value : Text) → get_elem? (x ∷ xs) i ≡ some (codes "token=" ++ value)
      → trim value ≢ []
      → Verifies (trim value)
      → (part_verifies jwt config now x || some_part_verifies jwt config now xs) ≡ true
  at_index x xs later zero value e filled v =
      let first = (part x).1 (value, cc e, filled, v) in rw first refl
  at_index x xs later (suc i) value e filled v =
      let found = later (i, value, e, filled, v) in ground arith

  some_part : (parts : List Text) → (some_part_verifies jwt config now parts ≡ true) ↔ AsPart parts
  unfolding some_part_verifies
  some_part [] = (λ h. cc, λ p. cc (p.2))
  some_part (x ∷ xs) = (
    λ h. elim (Bool-cases (part_verifies jwt config now x)) [
      | inl first ↦ let t = (part x).0 first in (0, t.0, ap some t.1, t.2, t.3)
      | inr other ↦
          let later = (some_part xs).0 (ground arith) in
          (suc later.0, later.1, later.2, later.3, later.4)
    ],
    λ p. at_index x xs (some_part xs).1 p.0 p.1 p.2 p.3 p.4,
  )

  query : (q : Option Text) → (query_verifies jwt config now q ≡ true) ↔ InQuery q
  unfolding query_verifies
  query none = (λ h. cc, λ p. cc (p.1))
  query (some q) = (
    λ h. (q, refl, (some_part (split b'&' q)).0 h),
    λ p.
        let e : q ≡ p.0 = cc (p.1) in
        ap (λ (t : Text). some_part_verifies jwt config now (split b'&' t)) e
        ∙ (some_part (split b'&' p.0)).1 p.2,
  )

admits :
    {H Q : Type 0} (password : Text) (h q : Bool)
    → (h ≡ true) ↔ H
    → (q ≡ true) ↔ Q
    → ((if is_empty password then true else if h then true else q) ≡ true)
      ↔ ((password ≡ []) ⊎ H ⊎ Q)
admits [] h q eh eq = (λ e. inl refl, λ p. refl)
admits (c ∷ t) true q eh eq = (λ e. inr (inl (eh.0 refl)), λ p. refl)
admits (c ∷ t) false q eh eq = (
  λ e. inr (inr (eq.0 e)),
  λ p. elim p [
    | inl none_set ↦ cc none_set
    | inr (inl in_header) ↦ cc (eh.1 in_header)
    | inr (inr in_query) ↦ eq.1 in_query
  ],
)

-- A request goes on to its handler exactly when no password is set, or the Authorization header is
-- `Bearer ` and a token that the library accepts under the secret at the time of the request, or a
-- part of the query is `token=` and such a token, among white space and not empty.
pub auth_middleware_admits :
    (jwt : Jwt) (config : AppConfig) (now : ℕ) (req : Request)
    → (auth_middleware jwt config now req ≡ true) ↔ (
        (config.login_password ≡ [])
        ⊎ (InHeader jwt config now req.authorization)
        ⊎ (InQuery jwt config now req.query))
unfolding auth_middleware
auth_middleware_admits jwt config now req =
    admits config.login_password (header_verifies jwt config now req.authorization)
      (query_verifies jwt config now req.query) (header jwt config now req.authorization)
      (query jwt config now req.query)

IsLawful-decode :
    (jwt : Jwt) (config : AppConfig) (now later : ℕ) (token : Text)
    → IsLawful jwt
    → later ≤ now + token_seconds
    → generate_token jwt config now config.jwt_secret ≡ some token
    → Verifies jwt config later token
unfolding generate_token
IsLawful-decode jwt config now later token lawful soon e =
    lawful.accepts _ config.jwt_secret token later e soon

module _ (jwt : Jwt) (config : AppConfig) (now : ℕ) (password : Text) where
  granted :
      (token : Text)
      → (login jwt config now password).1 ≡ some token
      → (password ≡ config.login_password)
        × (generate_token jwt config now config.jwt_secret ≡ some token)
  unfolding login
  granted token h = elim (Bool-cases (same_password config.login_password password)) [
    | inl right ↦ (
      sym ((same_password_iff _ password).0 right),
      elim (Option-cases (generate_token jwt config now config.jwt_secret)) [
        | inl missing ↦ ground arith
        | inr (t, made) ↦ ground arith
      ],
    )
    | inr wrong ↦ absurd (ground arith)
  ]

  refused : ((login jwt config now password).0 ≡ 401) ↔ (password ≢ config.login_password)
  unfolding login
  refused = elim (Bool-cases (same_password config.login_password password)) [
    | inl right ↦
        let same = sym ((same_password_iff _ password).0 right) in
        (λ h. absurd (ground arith), λ differs. absurd (differs same))
    | inr wrong ↦ (
      λ h same. cc (wrong, (same_password_iff config.login_password password).1 (sym same)),
      λ differs. ground arith,
    )
  ]

-- Where the library keeps its promise: a login is answered with 401 exactly when its password is not
-- that of the configuration; a token is answered only for that password, and it passes the
-- middleware as a bearer token, with any query, at every time up to thirty days later.
pub login-auth_middleware :
    (jwt : Jwt) (config : AppConfig) (now : ℕ) (password : Text)
    → IsLawful jwt
    → (((login jwt config now password).0 ≡ 401) ↔ (password ≢ config.login_password))
      × ((token : Text)
          → (login jwt config now password).1 ≡ some token
          → (password ≡ config.login_password)
            × ((later : ℕ) (query : Option Text)
                → later ≤ now + token_seconds
                → auth_middleware jwt config later
                    (record { authorization = some (codes "Bearer " ++ token); query = query })
                  ≡ true))
login-auth_middleware jwt config now password lawful = (
  refused jwt config now password,
  λ token answered.
      let (right, made) = granted jwt config now password token answered in
      (
        right,
        λ later query soon.
            (auth_middleware_admits jwt config later _).1 (
              inr (inl (token, refl, IsLawful-decode jwt config now later token lawful soon made))),
      ),
)
