-- ===== src/Tests/Security.antt =====
-- Examples of the security services, over a bcrypt that checks a text by hashing it again.
use fast_api_ddd_template.Ports.Sql.{sql_ports}
use fast_api_ddd_template.Base.{
  ℕ, ◌+◌, ◌≡◌, refl, arith, List, [], String, if◌then◌else◌, str_eq, map, bytes_eq, bytes_eq_iff,
}
use fast_api_ddd_template.Domain.Errors.{ok}
use fast_api_ddd_template.Domain.Values.{UserId, id_text}
use fast_api_ddd_template.World.{World}
use fast_api_ddd_template.Security.Passwords.{Bcrypt, BcryptHasher, hash, verify}
use fast_api_ddd_template.Application.Dto.{CreateUserInputDto, CreateUserOutputDto}
use fast_api_ddd_template.Application.Presenter.{Presenter, new_presenter, present}
use fast_api_ddd_template.Application.CreateUser.{run_create_user}
use fast_api_ddd_template.Application.AuthenticateUser.{authenticate_user}
use fast_api_ddd_template.Application.SignIn.{IsBcrypt, run_create_user-authenticate_user}
use fast_api_ddd_template.Tests.Data.{sevens, two_accounts-IsConsistent, world, repr}

-- The hash of one text is 60 times the byte 7, that of any other is 60 times the byte 8.
abbrev eights : ℕ → List ℕ
eights n = map (λ x. x + 1) (sevens n)

abbrev hashpw : String → List ℕ
hashpw text = if str_eq text "hunter22" then sevens 60 else eights 60

abbrev bcrypt : Bcrypt
bcrypt = record {
  gensalt = λ rounds random. random;
  hashpw = λ text salt. ok (hashpw text);
  checkpw = λ text hashed. ok (bytes_eq (hashpw text) hashed);
}

bcrypt-IsBcrypt : IsBcrypt bcrypt
bcrypt-IsBcrypt text salt digest h = ground (arith, h, bytes_eq_iff digest digest)

abbrev hasher : BcryptHasher
hasher = record { rounds = 12 }

abbrev new_id : UserId
new_id = record { value = 3 }

abbrev john : CreateUserInputDto
john = record { username = "john_brown"; password = "hunter22"; role = "user" }

abbrev created : Presenter CreateUserOutputDto
created =
    present (record { id = id_text new_id; username = "john_brown"; role = "user" }) new_presenter

abbrev after_creation : World
after_creation = (run_create_user repr (hash bcrypt hasher []) new_id john new_presenter world).1

creates :
    run_create_user repr (hash bcrypt hasher []) new_id john new_presenter world
    ≡ (ok created, after_creation)
unfolding run_create_user hash fast_api_ddd_template.Domain.Values.new_raw_password
    fast_api_ddd_template.Domain.Values.new_password_hash
    fast_api_ddd_template.Domain.Values.new_username
    fast_api_ddd_template.Domain.Values.new_user_role fast_api_ddd_template.UnitOfWork.with_repo
    fast_api_ddd_template.InvariantService.ensure_username_unique
    fast_api_ddd_template.Database.UserRepo.get_by_username
    fast_api_ddd_template.Database.UserRepo.add fast_api_ddd_template.Database.Schema.insert_user
creates = refl

run_create_user-authenticate_user_example :
    (authenticate_user
      (verify bcrypt)
      (record { username = "john_brown"; raw_password = "hunter22" })
      new_presenter
      after_creation).0
    ≡ ok (
        present
          (record { user_id = id_text new_id; username = "john_brown"; role = "user" })
          new_presenter)
run_create_user-authenticate_user_example =
    run_create_user-authenticate_user bcrypt hasher [] bcrypt-IsBcrypt repr new_id john
      new_presenter created new_presenter world after_creation two_accounts-IsConsistent creates
      refl
