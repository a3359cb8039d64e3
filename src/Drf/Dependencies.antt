-- ===== src/Drf/Dependencies.antt =====
-- app/interface/drf/dependencies.py: the use cases with the ports of the Django stack, and the
-- authentication service bound to `request.auth_payload`. The clocks, the hasher, the verifier
-- and fresh ids are given.
use fast_api_ddd_template.Base.{ℕ, ◌*◌, Bool, none, some, [], ◌∷◌, String}
use fast_api_ddd_template.Domain.Errors.{Result, other_error}
use fast_api_ddd_template.Domain.Values.{UserId, UserRawPassword, UserPasswordHash}
use fast_api_ddd_template.Domain.User.{User}
use fast_api_ddd_template.Database.SessionRepo.{Clocks}
use fast_api_ddd_template.World.{Action, raise}
use fast_api_ddd_template.Security.Jwt.{JwtTokenService}
use fast_api_ddd_template.Security.Tokens.{RandomHexTokenService, new_token_service}
use fast_api_ddd_template.Security.Passwords.{BcryptHasher, new_hasher}
use fast_api_ddd_template.DjangoOrm.Auth.{current_user}
use fast_api_ddd_template.Ports.Django.{django_ports}
use fast_api_ddd_template.Application.Dto.{
  AuthRequestDto, AuthResponseDto, CreateUserInputDto, CreateUserOutputDto, GetAllUsersOutputDto,
  GetUserInputDto, GetUserOutputDto, UpdateUserInputDto, UpdateUserOutputDto,
  ChangePasswordInputDto, ChangePasswordOutputDto, DeleteUserInputDto, DeleteUserOutputDto,
}
use fast_api_ddd_template.Application.Presenter.{Presenter}
use fast_api_ddd_template.Application.AuthenticateUser.{authenticate_user}
use fast_api_ddd_template.Application.CreateUser.{create_user}
use fast_api_ddd_template.Application.UpdateUser.{update_user}
use fast_api_ddd_template.Application.ChangePassword.{change_password}
use fast_api_ddd_template.Application.DeleteUser.{delete_user}
use fast_api_ddd_template.Application.GetUser.{get_user, get_all_users}
use fast_api_ddd_template.Http.Message.{Request}
use fast_api_ddd_template.Http.AuthRoutes.{Settings}

-- `get_access_token_service`, of JWT_SECRET and JWT_ALGORITHM.
unfoldable pub get_access_token_service : String → String → Settings → JwtTokenService
get_access_token_service secret algorithm cfg = record {
  secret = secret;
  algorithm = algorithm;
  default_expires = some (cfg.jwt_token_expiry * 60);
  required_claims = "sub" ∷ "exp" ∷ "role" ∷ "sid" ∷ [];
  leeway = 0;
}

-- `get_refresh_token_service`, of REFRESH_TOKEN_LENGTH.
unfoldable pub get_refresh_token_service : ℕ → Result RandomHexTokenService
get_refresh_token_service length = new_token_service length

-- `get_hasher`: the default of `BcryptHasher.__init__`.
unfoldable pub get_hasher : Result BcryptHasher
get_hasher = new_hasher 12

-- `get_authenticate_user_uc`
unfoldable pub get_authenticate_user_uc :
    (UserRawPassword → UserPasswordHash → Result Bool)
    → AuthRequestDto
    → Presenter AuthResponseDto
    → Action (Presenter AuthResponseDto)
get_authenticate_user_uc verify = authenticate_user verify

-- `get_auth_service`, and the `current_user` of the service.
unfoldable pub get_auth_service : Clocks → Request → Action User
get_auth_service c request = elim request.auth_payload [
  | none ↦ raise (other_error "AttributeError")
  | some payload ↦ current_user c payload
]

module _ (c : Clocks) (request : Request) where
  unfoldable pub get_create_user_uc :
      (String → String)
      → (UserRawPassword → Result UserPasswordHash)
      → UserId
      → CreateUserInputDto
      → Presenter CreateUserOutputDto
      → Action (Presenter CreateUserOutputDto)
  unfolding get_auth_service
  get_create_user_uc repr hash = create_user repr hash (get_auth_service c request)

  unfoldable pub get_all_users_uc :
      Presenter GetAllUsersOutputDto → Action (Presenter GetAllUsersOutputDto)
  unfolding get_auth_service
  get_all_users_uc = get_all_users (get_auth_service c request)

  unfoldable pub get_user_uc :
      GetUserInputDto → Presenter GetUserOutputDto → Action (Presenter GetUserOutputDto)
  unfolding get_auth_service
  get_user_uc = get_user (get_auth_service c request)

  unfoldable pub get_update_user_uc :
      (String → String)
      → UpdateUserInputDto
      → Presenter UpdateUserOutputDto
      → Action (Presenter UpdateUserOutputDto)
  unfolding get_auth_service
  get_update_user_uc repr = update_user repr (get_auth_service c request)

  unfoldable pub get_change_password_uc :
      (UserRawPassword → Result UserPasswordHash)
      → ChangePasswordInputDto
      → Presenter ChangePasswordOutputDto
      → Action (Presenter ChangePasswordOutputDto)
  unfolding get_auth_service
  get_change_password_uc hash = change_password hash (get_auth_service c request)

  unfoldable pub get_delete_user_uc :
      DeleteUserInputDto → Presenter DeleteUserOutputDto → Action (Presenter DeleteUserOutputDto)
  unfolding get_auth_service
  get_delete_user_uc = delete_user (get_auth_service c request)
