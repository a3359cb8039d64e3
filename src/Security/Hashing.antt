-- ===== src/Security/Hashing.antt =====
-- `BcryptHasher.hash` as the hasher of the use cases.
use fast_api_ddd_template.Base.{ℕ, List}
use fast_api_ddd_template.Domain.Values.{new_password_hash}
use fast_api_ddd_template.Database.Ensures.{Anything}
use fast_api_ddd_template.Database.Invariant.UserMethods.{
  IsHash, IsHasher, Returns-bind, new_password_hash-IsHash,
}
use fast_api_ddd_template.World.Preserves.{Returns-Anything}
use fast_api_ddd_template.Security.Passwords.{Bcrypt, BcryptHasher, hash}

-- Whatever bcrypt returns, the hasher gives a hash of 60 bytes or raises.
pub hash-IsHasher : (b : Bcrypt) (h : BcryptHasher) (random : List ℕ) → IsHasher (hash b h random)
unfolding hash
hash-IsHasher b h random raw =
    Returns-bind {P = Anything} IsHash (b.hashpw raw.value (b.gensalt h.rounds random))
      new_password_hash (Returns-Anything _) (λ digest _. new_password_hash-IsHash digest)
