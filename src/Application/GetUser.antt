-- ===== src/Application/GetUser.antt =====
-- app/application/use_cases/get_user.py and get_all_users.py: `GetUserUseCase` and
-- `GetAllUsersUseCase`.
use fast_api_ddd_template.Base.{none, some, [], ◌∷◌, map}
use fast_api_ddd_template.Domain.Errors.{message, is_value_or_object_error}
use fast_api_ddd_template.Domain.Values.{admin, user, user_id_from_str}
use fast_api_ddd_template.Domain.User.{User}
use fast_api_ddd_template.Ports.{Ports}
use fast_api_ddd_template.World.{Action, ◌>>=◌, pure, lift, try_except}
use fast_api_ddd_template.Application.Dto.{
  GetUserInputDto, GetUserOutputDto, GetAllUsersOutputDto, user_dto,
}
use fast_api_ddd_template.Application.Presenter.{Presenter, present, domain_error, not_found}
use fast_api_ddd_template.Application.Authorize.{execute}

unfoldable pub run_get_user :
    ⦃ports : Ports⦄
    → GetUserInputDto
    → Presenter GetUserOutputDto
    → Action (Presenter GetUserOutputDto)
run_get_user ⦃ports⦄ dto p =
    try_except (lift (user_id_from_str dto.user_id)) is_value_or_object_error
      (λ e. pure (domain_error (message e) p))
      λ user_id. do
        found ← ports.with_users (ports.get_by_id user_id)
        elim found [
          | none ↦ pure (not_found "User not found" p)
          | some u ↦ pure (present (record { user = user_dto u }) p)
        ]

-- `execute` of `GetUserUseCase`.
unfoldable pub get_user :
    ⦃ports : Ports⦄
    → Action User
    → GetUserInputDto
    → Presenter GetUserOutputDto
    → Action (Presenter GetUserOutputDto)
unfolding run_get_user execute
get_user current_user dto =
    execute current_user "GetUserUseCase" (admin ∷ user ∷ []) (run_get_user dto)

unfoldable pub run_get_all_users :
    ⦃ports : Ports⦄ → Presenter GetAllUsersOutputDto → Action (Presenter GetAllUsersOutputDto)
run_get_all_users ⦃ports⦄ p = do
  users ← ports.with_users ports.get_all
  pure (present (record { users = map user_dto users }) p)

-- `execute` of `GetAllUsersUseCase`.
unfoldable pub get_all_users :
    ⦃ports : Ports⦄
    → Action User
    → Presenter GetAllUsersOutputDto
    → Action (Presenter GetAllUsersOutputDto)
unfolding run_get_all_users execute
get_all_users current_user =
    execute current_user "GetAllUsersUseCase" (admin ∷ user ∷ []) run_get_all_users
