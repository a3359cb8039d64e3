-- ===== src/Security/Tokens.antt =====
-- app/infrastructure/security/random_hex_token_service.py: `RandomHEXTokenService`. The random
-- text of `secrets.token_hex` and SHA-256 are given.
use fast_api_ddd_template.Base.{ℕ, Bool, String, ltb, str_eq, if◌then◌else◌}
use fast_api_ddd_template.Domain.Errors.{Result, ok, err, value_error}

pub record RandomHexTokenService : Type 0 where
  pub token_length : ℕ

-- `__init__`
unfoldable pub new_token_service : ℕ → Result RandomHexTokenService
new_token_service n =
    if ltb n 16
    then err (value_error "Token length must be >= 16 bytes")
    else ok (record { token_length = n })

module _ (token_hex : ℕ → String) (sha256 : String → String) where
  -- `generate`
  unfoldable pub generate : RandomHexTokenService → String
  generate s = token_hex s.token_length

  -- `hash`
  unfoldable pub hash_token : String → String
  hash_token token = sha256 token

  -- `verify`
  unfoldable pub verify_token : String → String → Bool
  unfolding hash_token
  verify_token token token_hash = str_eq (hash_token token) token_hash
