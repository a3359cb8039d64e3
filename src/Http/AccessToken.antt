-- ===== src/Http/AccessToken.antt =====
-- The access token that a login or a refresh issues, as the middleware reads it.
use fast_api_ddd_template.Base.{
  ℕ, ◌+◌, ◌/◌, ◌<◌, ◌^◌, ◌≡◌, refl, sym, arith, eq_iff, true, false, Bool-cases, inl, inr, some, [],
  ◌∷◌, String, str_eq, ap, ◌∙◌,
}
use fast_api_ddd_template.Domain.Errors.{ok}
use fast_api_ddd_template.Domain.Values.{UserRole, admin, user, role_text}
use fast_api_ddd_template.Domain.Uuid.{parse_uuid, uuid_text}
use fast_api_ddd_template.Domain.Uuid.RoundTrip.{parse_uuid-uuid_text}
use fast_api_ddd_template.Security.Jwt.{
  PyJwt, JwtTokenService, Claims, Claim, Options, claims, accepted, issue, decode,
}
use fast_api_ddd_template.Http.AuthRoutes.{Settings, Draws, issue_access}
use fast_api_ddd_template.Http.Middleware.{payload_of}

-- The text of a UUID is not empty.
uuid_text-not_empty : (u : ℕ) → u < 2 ^ 128 → str_eq (uuid_text u) "" ≡ false
unfolding parse_uuid
uuid_text-not_empty u b = elim (Bool-cases (str_eq (uuid_text u) "")) [
  | inr f ↦ f
  | inl t ↦
      let e : parse_uuid "" ≡ ok u =
        sym (ap parse_uuid ((eq_iff (uuid_text u) "").0 t)) ∙ parse_uuid-uuid_text u b in
      absurd (ground (arith, e))
]

-- The claims of an access token.
abbrev pub stamped : ℕ → ℕ → String → ℕ → UserRole → ℕ → Claims
stamped now lifetime jti user_id role session_id =
    ("sub", Claim.text (uuid_text user_id))
    ∷ ("role", Claim.text (role_text role))
    ∷ ("sid", Claim.text (uuid_text session_id))
    ∷ ("iat", Claim.number now)
    ∷ ("jti", Claim.text jti)
    ∷ ("exp", Claim.number (now + lifetime))
    ∷ []

role_text-not_empty : (r : UserRole) → str_eq (role_text r) "" ≡ false
role_text-not_empty admin = refl
role_text-not_empty user = refl

payload_of-stamped :
    (now lifetime : ℕ) (jti : String) (user_id : ℕ) (role : UserRole) (session_id : ℕ)
    → user_id < 2 ^ 128
    → session_id < 2 ^ 128
    → payload_of (stamped now lifetime jti user_id role session_id)
      ≡ some (ok (record { user_id = user_id; session_id = session_id; role = role_text role }))
unfolding payload_of
payload_of-stamped now lifetime jti user_id role session_id b c = ground (
  arith,
  uuid_text-not_empty user_id b,
  uuid_text-not_empty session_id c,
  role_text-not_empty role,
  parse_uuid-uuid_text user_id b,
  parse_uuid-uuid_text session_id c,
)

module _ (cfg : Settings) (jwt : PyJwt) (service : JwtTokenService) (sha256 : String → String)
    (draws : Draws) (lifetime later user_id : ℕ) (role : UserRole) (session_id : ℕ) where
  abbrev now : ℕ
  now = draws.clocks.now / 1000000

  abbrev pub issued_claims : Claims
  issued_claims = stamped now lifetime draws.jti user_id role session_id

  abbrev options : Options
  options = record {
    verify_exp = true;
    required = service.required_claims;
    leeway = service.leeway;
  }

  -- With the claims that the application requires and a lifetime, and where PyJWT decodes at a
  -- time the token that it encoded from the claims issued, the token service accepts an access
  -- token at that time, and the middleware reads from it the user, the session and the role that
  -- it was issued for.
  pub issue_access-payload_of :
      service.required_claims ≡ "sub" ∷ "exp" ∷ "role" ∷ "sid" ∷ []
      → service.default_expires ≡ some lifetime
      → user_id < 2 ^ 128
      → session_id < 2 ^ 128
      → jwt.decode later options
          (jwt.encode issued_claims service.secret service.algorithm)
          service.secret
          service.algorithm
        ≡ claims issued_claims
      → (cs : Claims) × (decode jwt service later true (
            issue_access cfg jwt service sha256 draws
              (uuid_text user_id)
              (role_text role)
              session_id)
          ≡ accepted cs)
        × (payload_of cs
            ≡ some
                (ok (record { user_id = user_id; session_id = session_id; role = role_text role })))
  unfolding decode issue
  issue_access-payload_of r d b c h = (
    issued_claims,
    rw (d, h, r) refl,
    payload_of-stamped now lifetime draws.jti user_id role session_id b c,
  )
