-- ===== src/Application/AuthenticateUser.antt =====
-- app/application/use_cases/authenticate_user.py: `AuthenticateUserUseCase`. The verifier of
-- passwords is given.
use fast_api_ddd_template.Base.{Bool, not, Option, none, some, String, if◌then◌else◌}
use fast_api_ddd_template.Domain.Errors.{
  Result, is_domain_error, is_value_object_error, ◌>>=◌ as bind_result,
}
use fast_api_ddd_template.Domain.Values.{
  UserRawPassword, UserPasswordHash, id_text, role_text, new_username, new_raw_password,
}
use fast_api_ddd_template.Domain.User.{User}
use fast_api_ddd_template.Database
use fast_api_ddd_template.Database.{Query}
use fast_api_ddd_template.Ports.{Ports}
use fast_api_ddd_template.World.{
  Action, auth_failed, auth_succeeded, ◌>>◌, pure, lift, write_log, try_except,
}
use fast_api_ddd_template.Application.Dto.{AuthRequestDto, AuthResponseDto}
use fast_api_ddd_template.Application.Presenter.{Presenter, present, unauthorized}

-- The body of the unit of work.
unfoldable pub find_account : ⦃ports : Ports⦄ → String → Query (Option User)
find_account ⦃ports⦄ name = Database.◌>>=◌ (Database.lift (new_username name)) ports.get_by_username

-- Every failure reports the same text, and logs its reason.
abbrev pub fail : {D : Type 0} → String → Presenter D → Action (Presenter D)
fail reason p = write_log (auth_failed reason) >> pure (unauthorized "Invalid credentials" p)

abbrev pub auth_output : User → AuthResponseDto
auth_output u = record {
  user_id = id_text u.id;
  username = u.username.value;
  role = role_text u.role;
}

module _ (verify : UserRawPassword → UserPasswordHash → Result Bool) where
  -- `run` from where the account is known.
  unfoldable pub check_account :
      AuthRequestDto → Presenter AuthResponseDto → Option User → Action (Presenter AuthResponseDto)
  check_account dto p none = fail "user_not_found" p
  check_account dto p (some u) =
      if not u.is_active
      then fail "inactive_user" p
      else try_except
          (lift (bind_result (new_raw_password dto.raw_password) λ raw. verify raw u.password_hash))
          is_value_object_error (λ _. fail "bad_password_format" p)
          λ matches.
            if not matches
            then fail "password_mismatch" p
            else (write_log (auth_succeeded (id_text u.id)) >> pure (present (auth_output u) p))

  -- `execute`
  unfoldable pub authenticate_user :
      ⦃ports : Ports⦄
      → AuthRequestDto
      → Presenter AuthResponseDto
      → Action (Presenter AuthResponseDto)
  unfolding find_account check_account
  authenticate_user ⦃ports⦄ dto p =
      try_except (ports.with_users (find_account dto.username)) is_domain_error
        (λ _. fail "bad_username_format" p) (check_account dto p)
