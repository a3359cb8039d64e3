-- ===== src/Startup/Bootstrap.antt =====
-- app/scripts/bootstrap.py and app/scripts/bootstrap_django.py: the first administrator. The two
-- scripts are the same but for the stack, which is the instance of the ports.
pub mod Adds
pub mod Once
use Prim.Native.String.{[], ◌∷◌}
use Prim.Native.Char.{code}
use fast_api_ddd_template.Base
use fast_api_ddd_template.Base.{
  ℕ, ◌+◌, ◌/◌, ◌%◌, Bool, true, false, ◌||◌, List, ◌++◌, String, Char, ltb, str_eq, if◌then◌else◌,
}
use fast_api_ddd_template.Domain.Errors.{
  Error, Result, ok, is_domain_or_value_error, is_duplicate_username_error, ◌>>=◌,
}
use fast_api_ddd_template.Domain.Values.{UserId, admin, new_username, new_password_hash}
use fast_api_ddd_template.Domain.User.{User, create}
use fast_api_ddd_template.Ports.{Ports}
use fast_api_ddd_template.Ports.Sql.{sql_ports}
use fast_api_ddd_template.Ports.Django.{django_ports}
use fast_api_ddd_template.World.{Action, pure, lift, try_except}

-- How the script exits: the message, and the status.
pub data Report : Type 0 where
  must_be_set : Report
  cannot_be_created : Error → Report
  already_exists : Report
  admin_created : User → Report

abbrev pub exit_status : Report → ℕ
exit_status must_be_set = 1
exit_status (cannot_be_created e) = 1
exit_status already_exists = 0
exit_status (admin_created u) = 0

-- The bytes of a character in UTF-8.
abbrev utf8 : ℕ → List ℕ
utf8 n =
    if ltb n 128
    then Base.◌∷◌ n Base.[]
    else if ltb n 2048
    then Base.◌∷◌ (192 + n / 64) (Base.◌∷◌ (128 + n % 64) Base.[])
    else if ltb n 65536
    then Base.◌∷◌ (224 + n / 4096) (Base.◌∷◌ (128 + n / 64 % 64) (Base.◌∷◌ (128 + n % 64) Base.[]))
    else Base.◌∷◌ (240 + n / 262144) (
        Base.◌∷◌ (128 + n / 4096 % 64)
          (Base.◌∷◌ (128 + n / 64 % 64) (Base.◌∷◌ (128 + n % 64) Base.[])))

-- `s.encode()`
unfoldable pub encode : String → List ℕ
encode [] = Base.[]
encode (c ∷ s) = utf8 (code c) ++ encode s

-- The first `try` of `main`.
unfoldable pub make_admin : UserId → String → String → Result User
unfolding create encode
make_admin new_id username password_hash = new_username username >>= λ name.
    new_password_hash (encode password_hash) >>= λ h. ok (create new_id name h admin)

-- `main`: the settings BOOTSTRAP_ADMIN and BOOTSTRAP_ADMIN_PASSWORD_HASH, and the id that
-- `UserId.new()` makes, are given.
unfoldable pub main : ⦃ports : Ports⦄ → UserId → String → String → Action Report
unfolding make_admin
main ⦃ports⦄ new_id username password_hash =
    if str_eq username "" || str_eq password_hash ""
    then pure must_be_set
    else try_except (lift (make_admin new_id username password_hash)) is_domain_or_value_error
        (λ e. pure (cannot_be_created e))
        λ user.
          try_except (ports.with_users (ports.add user)) is_duplicate_username_error
            (λ _. pure already_exists) λ _. pure (admin_created user)

-- The script of each stack.
unfoldable pub main_fastapi : UserId → String → String → Action Report
main_fastapi = main ⦃ports = sql_ports⦄

unfoldable pub main_django : UserId → String → String → Action Report
main_django = main ⦃ports = django_ports⦄
