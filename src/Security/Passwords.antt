-- ===== src/Security/Passwords.antt =====
-- app/infrastructure/security/adapters/services.py: `BcryptHasher` and `BcryptPasswordVerifier`.
use fast_api_ddd_template.Base.{ℕ, Bool, List, String, ltb, if◌then◌else◌}
use fast_api_ddd_template.Domain.Errors.{Result, ok, err, value_error, ◌>>=◌}
use fast_api_ddd_template.Domain.Values.{UserRawPassword, UserPasswordHash, new_password_hash}

-- The functions of bcrypt; a password that bcrypt refuses raises.
pub record Bcrypt : Type 0 where
  -- `gensalt(rounds)`, on the random bytes that it draws.
  pub gensalt : ℕ → List ℕ → List ℕ
  pub hashpw : String → List ℕ → Result (List ℕ)
  pub checkpw : String → List ℕ → Result Bool

pub record BcryptHasher : Type 0 where
  pub rounds : ℕ

-- `BcryptHasher.__init__`
unfoldable pub new_hasher : ℕ → Result BcryptHasher
new_hasher rounds =
    if ltb rounds 4
    then err (value_error "Bcrypt rounds must be >= 4.")
    else ok (record { rounds = rounds })

module _ (b : Bcrypt) where
  -- `BcryptHasher.hash`
  unfoldable pub hash : BcryptHasher → List ℕ → UserRawPassword → Result UserPasswordHash
  hash h random raw = do
    digest ← b.hashpw raw.value (b.gensalt h.rounds random)
    new_password_hash digest

  -- `BcryptPasswordVerifier.verify`
  unfoldable pub verify : UserRawPassword → UserPasswordHash → Result Bool
  verify raw hashed = b.checkpw raw.value hashed.value
