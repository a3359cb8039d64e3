-- ===== src/Drf/UserViews.antt =====
-- app/interface/drf/views/users.py. A method of a view ends in a response or raises; the id in
-- the path is a UUID, which Django has read.
use fast_api_ddd_template.Base.{ℕ, String}
use fast_api_ddd_template.Domain.Errors.{Result}
use fast_api_ddd_template.Domain.Uuid.{uuid_text}
use fast_api_ddd_template.Domain.Values.{UserId, UserRawPassword, UserPasswordHash}
use fast_api_ddd_template.Database.SessionRepo.{Clocks}
use fast_api_ddd_template.World.{Action, ◌>>=◌, lift}
use fast_api_ddd_template.Application.Dto.{
  UpdateUserOutputDto, GetUserOutputDto, GetAllUsersOutputDto, ChangePasswordOutputDto,
  DeleteUserOutputDto,
}
use fast_api_ddd_template.Application.Presenter.{new_presenter}
use fast_api_ddd_template.Http.Message.{Reply, Request, one_user, all_users, created_user}
use fast_api_ddd_template.Drf.Framework.{Framework, Input}
use fast_api_ddd_template.Drf.Serializers.{validate_create, validate_update, validate_password}
use fast_api_ddd_template.Drf.Presenting.{respond}
use fast_api_ddd_template.Drf.Dependencies.{
  get_all_users_uc, get_create_user_uc, get_user_uc, get_update_user_uc, get_delete_user_uc,
  get_change_password_uc,
}

module _ (c : Clocks) (request : Request) where
  -- `UserListView.get`
  unfoldable pub list_users : Action Reply
  list_users = do
    p ← get_all_users_uc c request new_presenter
    lift (respond 200 (λ (d : GetAllUsersOutputDto). all_users d.users) p)

  -- `UserDetailView.get`
  unfoldable pub retrieve : ℕ → Action Reply
  retrieve user_id = do
    p ← get_user_uc c request (record { user_id = uuid_text user_id }) new_presenter
    lift (respond 200 (λ (d : GetUserOutputDto). one_user d.user) p)

  -- `UserDetailView.delete`
  unfoldable pub delete : ℕ → Action Reply
  delete user_id = do
    p ← get_delete_user_uc c request (record { user_id = uuid_text user_id }) new_presenter
    lift (respond 200 (λ (d : DeleteUserOutputDto). one_user d.user) p)

module _ (f : Framework) (c : Clocks) (repr : String → String)
    (hash : UserRawPassword → Result UserPasswordHash) (request : Request) where
  -- `UserListView.post`
  unfoldable pub post : UserId → Input → Input → Input → Action Reply
  post new_id username password role = do
    body ← lift (validate_create f username password role)
    p ← get_create_user_uc c request repr hash new_id body new_presenter
    lift (respond 201 created_user p)

  -- `UserDetailView.patch`
  unfoldable pub patch : ℕ → Input → Input → Action Reply
  patch user_id username role = do
    given ← lift (validate_update f username role)
    p ←
        get_update_user_uc c request repr
          (record { user_id = uuid_text user_id; username = given.0; role = given.1 }) new_presenter
    lift (respond 200 (λ (d : UpdateUserOutputDto). one_user d.user) p)

  -- `ChangePasswordView.patch`
  unfoldable pub patch_password : ℕ → Input → Action Reply
  patch_password user_id new_password = do
    text ← lift (validate_password f new_password)
    p ←
        get_change_password_uc c request hash
          (record { user_id = uuid_text user_id; new_password = text }) new_presenter
    lift (respond 200 (λ (d : ChangePasswordOutputDto). one_user d.user) p)
