-- ===== src/Security/Jwt.antt =====
-- app/infrastructure/security/jwt_service.py: `JwtTokenService`. PyJWT's `encode` and `decode`
-- are given, and so are the clock and the fresh `jti`. Times are seconds.
use fast_api_ddd_template.Base.{
  ℕ, ◌+◌, Bool, true, false, not, Option, none, some, List, [], ◌∷◌, String, str_eq, where_,
  if◌then◌else◌,
}

-- The value of a claim.
pub data Claim : Type 0 where
  text : String → Claim
  number : ℕ → Claim

abbrev pub Claims : Type 0
Claims = List (String × Claim)

-- `claims.get(name)`
abbrev pub get : String → Claims → Option Claim
get name [] = none
get name ((k, v) ∷ cs) = if str_eq k name then some v else get name cs

-- `claims[name] = v`
abbrev pub put : String → Claim → Claims → Claims
put name v [] = (name, v) ∷ []
put name v ((k, w) ∷ cs) = if str_eq k name then (k, v) ∷ cs else (k, w) ∷ put name v cs

-- How PyJWT's `decode` ends: with claims, `ExpiredSignatureError` or `InvalidTokenError`.
pub data Decoded : Type 0 where
  claims : Claims → Decoded
  expired invalid : String → Decoded

-- The options of a call of `decode`.
pub record Options : Type 0 where
  pub verify_exp : Bool
  pub required : List String
  pub leeway : ℕ

pub record PyJwt : Type 0 where
  -- `encode(payload, key, algorithm)`
  pub encode : Claims → String → String → String
  -- `decode(token, key, [algorithm], options, leeway)` at a time.
  pub decode : ℕ → Options → String → String → String → Decoded

pub record JwtTokenService : Type 0 where
  pub secret : String
  pub algorithm : String
  pub default_expires : Option ℕ
  pub required_claims : List String
  pub leeway : ℕ

-- The outcome of the service's `decode`: claims, `JwtTokenExpired` or `JwtTokenInvalid`.
pub data Outcome : Type 0 where
  accepted : Claims → Outcome
  token_expired token_invalid : Outcome

-- `_compute_exp`
unfoldable pub compute_exp : JwtTokenService → ℕ → Option ℕ → Option ℕ
compute_exp s now (some seconds) = some (now + seconds)
compute_exp s now none = elim s.default_expires [ none ↦ none | some d ↦ some (now + d) ]

-- `if exp is not None: to_encode["exp"] = ...`
abbrev put_exp : Option ℕ → Claims → Claims
put_exp none cs = cs
put_exp (some t) cs = put "exp" (number t) cs

module _ (jwt : PyJwt) where
  -- `issue`
  unfoldable pub issue : JwtTokenService → ℕ → String → Claims → Option ℕ → String
  unfolding compute_exp
  issue s now jti cs expires_in =
      jwt.encode
        (put_exp (compute_exp s now expires_in) (put "jti" (text jti) (put "iat" (number now) cs)))
        s.secret s.algorithm

  abbrev has : Claims → String → Bool
  has cs name = elim (get name cs) [ none ↦ false | some v ↦ true ]

  abbrev checked : List String → Decoded → Outcome
  checked required (expired m) = token_expired
  checked required (invalid m) = token_invalid
  checked required (claims cs) = elim (where_ (λ name. not (has cs name)) required) [
    | [] ↦ accepted cs
    | missing ∷ more ↦ token_invalid
  ]

  -- `decode`
  unfoldable pub decode : JwtTokenService → ℕ → Bool → String → Outcome
  decode s now verify_exp token = checked s.required_claims (
      jwt.decode now
        (record { verify_exp = verify_exp; required = s.required_claims; leeway = s.leeway }) token
        s.secret s.algorithm)
