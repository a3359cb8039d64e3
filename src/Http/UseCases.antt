-- ===== src/Http/UseCases.antt =====
-- app/interface/http/routes/dependencies.py: the use cases with the ports of the SQLAlchemy stack,
-- and the authentication service bound to `request.state.auth_payload`. The clocks, the hasher,
-- the verifier and fresh ids are given.
use fast_api_ddd_template.Ports.Sql.{sql_ports}
use fast_api_ddd_template.Base.{Bool, none, some, String}
use fast_api_ddd_template.Domain.Errors.{Result, other_error}
use fast_api_ddd_template.Domain.Values.{UserId, UserRawPassword, UserPasswordHash}
use fast_api_ddd_template.Domain.User.{User}
use fast_api_ddd_template.Database.SessionRepo.{Clocks}
use fast_api_ddd_template.World.{Action, raise}
use fast_api_ddd_template.Auth.{current_user}
use fast_api_ddd_template.Application.Dto.{
  AuthRequestDto, AuthResponseDto, CreateUserInputDto, CreateUserOutputDto, GetAllUsersOutputDto,
  GetUserInputDto, GetUserOutputDto, UpdateUserInputDto, UpdateUserOutputDto,
  ChangePasswordInputDto, ChangePasswordOutputDto, DeleteUserInputDto, DeleteUserOutputDto,
}
use fast_api_ddd_template.Application.Presenter.{Presenter}
use fast_api_ddd_template.Application.AuthenticateUser.{authenticate_user}
use fast_api_ddd_template.Application.CreateUser.{create_user}
use fast_api_ddd_template.Application.UpdateUser.{update_user}
use fast_api_ddd_template.Application.ChangePassword.{change_password}
use fast_api_ddd_template.Application.DeleteUser.{delete_user}
use fast_api_ddd_template.Application.GetUser.{get_user, get_all_users}
use fast_api_ddd_template.Http.Message.{Request}

-- `get_auth_service`, and the `current_user` of the service.
abbrev pub auth_service : Clocks → Request → Action User
auth_service c request = elim request.auth_payload [
  | none ↦ raise (other_error "AttributeError")
  | some payload ↦ current_user c payload
]

abbrev pub get_authenticate_user_uc :
    (UserRawPassword → UserPasswordHash → Result Bool)
    → AuthRequestDto
    → Presenter AuthResponseDto
    → Action (Presenter AuthResponseDto)
get_authenticate_user_uc verify = authenticate_user verify

module _ (c : Clocks) (request : Request) where
  abbrev pub get_create_user_uc :
      (String → String)
      → (UserRawPassword → Result UserPasswordHash)
      → UserId
      → CreateUserInputDto
      → Presenter CreateUserOutputDto
      → Action (Presenter CreateUserOutputDto)
  get_create_user_uc repr hash = create_user repr hash (auth_service c request)

  abbrev pub get_all_users_uc :
      Presenter GetAllUsersOutputDto → Action (Presenter GetAllUsersOutputDto)
  get_all_users_uc = get_all_users (auth_service c request)

  abbrev pub get_user_uc :
      GetUserInputDto → Presenter GetUserOutputDto → Action (Presenter GetUserOutputDto)
  get_user_uc = get_user (auth_service c request)

  abbrev pub get_update_user_uc :
      (String → String)
      → UpdateUserInputDto
      → Presenter UpdateUserOutputDto
      → Action (Presenter UpdateUserOutputDto)
  get_update_user_uc repr = update_user repr (auth_service c request)

  abbrev pub get_change_password_uc :
      (UserRawPassword → Result UserPasswordHash)
      → ChangePasswordInputDto
      → Presenter ChangePasswordOutputDto
      → Action (Presenter ChangePasswordOutputDto)
  get_change_password_uc hash = change_password hash (auth_service c request)

  abbrev pub get_delete_user_uc :
      DeleteUserInputDto → Presenter DeleteUserOutputDto → Action (Presenter DeleteUserOutputDto)
  get_delete_user_uc = delete_user (auth_service c request)
