-- ===== src/Http/Dependencies.antt =====
-- app/interface/http/routes/dependencies.py: the services that are made from the settings. The
-- use cases are injected where the routes apply them.
use fast_api_ddd_template.Base.{ℕ, ◌*◌, some, [], ◌∷◌, String}
use fast_api_ddd_template.Domain.Errors.{Result}
use fast_api_ddd_template.Security.Jwt.{JwtTokenService}
use fast_api_ddd_template.Security.Tokens.{RandomHexTokenService, new_token_service}
use fast_api_ddd_template.Security.Passwords.{BcryptHasher, new_hasher}
use fast_api_ddd_template.Http.AuthRoutes.{Settings}

-- `get_access_token_service`, of JWT_SECRET and JWT_ALGORITHM.
unfoldable pub get_access_token_service : String → String → Settings → JwtTokenService
get_access_token_service secret algorithm cfg = record {
  secret = secret;
  algorithm = algorithm;
  default_expires = some (cfg.jwt_token_expiry * 60);
  required_claims = "sub" ∷ "exp" ∷ "role" ∷ "sid" ∷ [];
  leeway = 0;
}

-- `get_refresh_token_service`, of REFRESH_TOKEN_LENGTH.
unfoldable pub get_refresh_token_service : ℕ → Result RandomHexTokenService
get_refresh_token_service length = new_token_service length

-- `get_hasher`: the default of `BcryptHasher.__init__`.
unfoldable pub get_hasher : Result BcryptHasher
get_hasher = new_hasher 12
