-- ===== src/Application/CreateUser.antt =====
-- app/application/use_cases/create_user.py: `CreateUserUseCase`. The hasher and the id that
-- `UserId.new()` makes are given.
use fast_api_ddd_template.Base.{none, [], ◌∷◌, String, concat}
use fast_api_ddd_template.Domain.Errors.{
  Result, ok, message, is_domain_or_value_error, is_duplicate_username_error, ◌>>=◌ as bind_result,
}
use fast_api_ddd_template.Domain.Values.{
  UserId, UserRawPassword, UserPasswordHash, admin, id_text, role_text, new_username,
  new_raw_password, new_user_role,
}
use fast_api_ddd_template.Domain.User.{User, create}
use fast_api_ddd_template.Database.{Query, ◌>>◌}
use fast_api_ddd_template.Ports.{Ports}
use fast_api_ddd_template.World.{
  Action, user_created, pure, lift, write_log, try_except, ◌>>◌ as then_action,
}
use fast_api_ddd_template.InvariantService.{ensure_username_unique}
use fast_api_ddd_template.Application.Dto.{CreateUserInputDto, CreateUserOutputDto}
use fast_api_ddd_template.Application.Presenter.{Presenter, present, domain_error, conflict}
use fast_api_ddd_template.Application.Authorize.{execute}

-- The body of the unit of work.
unfoldable pub register : ⦃ports : Ports⦄ → User → Query (Unit {0})
register ⦃ports⦄ u = ensure_username_unique u.username none >> ports.add u

abbrev pub output : User → CreateUserOutputDto
output u = record { id = id_text u.id; username = u.username.value; role = role_text u.role }

module _ (repr : String → String) (hash : UserRawPassword → Result UserPasswordHash) where
  -- The first `try` of `run`.
  unfoldable pub make_user : UserId → CreateUserInputDto → Result User
  unfolding create
  make_user new_id dto = bind_result (new_raw_password dto.password) λ raw.
      bind_result (hash raw) λ pwd_hash. bind_result (new_username dto.username) λ username.
        bind_result (new_user_role repr dto.role) λ role. ok (create new_id username pwd_hash role)

  unfoldable pub run_create_user :
      ⦃ports : Ports⦄
      → UserId
      → CreateUserInputDto
      → Presenter CreateUserOutputDto
      → Action (Presenter CreateUserOutputDto)
  unfolding make_user register
  run_create_user ⦃ports⦄ new_id dto p =
      try_except (lift (make_user new_id dto)) is_domain_or_value_error
        (λ e. pure (domain_error (concat "User cannot be created: " (message e)) p))
        λ user.
          try_except (ports.with_users (register user)) is_duplicate_username_error
            (λ _. pure (conflict "Username already exists" p))
            λ _.
              then_action (write_log (user_created (id_text user.id)))
                (pure (present (output user) p))

  -- `execute` of this use case.
  unfoldable pub create_user :
      ⦃ports : Ports⦄
      → Action User
      → UserId
      → CreateUserInputDto
      → Presenter CreateUserOutputDto
      → Action (Presenter CreateUserOutputDto)
  unfolding run_create_user execute
  create_user current_user new_id dto =
      execute current_user "CreateUserUseCase" (admin ∷ []) (run_create_user new_id dto)
