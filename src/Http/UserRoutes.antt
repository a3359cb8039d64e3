-- ===== src/Http/UserRoutes.antt =====
-- app/interface/http/routes/users.py, with the use cases that dependencies.py injects.
use fast_api_ddd_template.Ports.Sql.{sql_ports}
use fast_api_ddd_template.Base.{Option, String}
use fast_api_ddd_template.Domain.Errors.{Result}
use fast_api_ddd_template.Domain.Values.{UserId, UserRawPassword, UserPasswordHash}
use fast_api_ddd_template.Database.SessionRepo.{Clocks}
use fast_api_ddd_template.World.{Action, ◌>>=◌, lift}
use fast_api_ddd_template.Application.Dto.{
  CreateUserInputDto, UpdateUserOutputDto, GetUserOutputDto, GetAllUsersOutputDto,
  ChangePasswordOutputDto, DeleteUserOutputDto,
}
use fast_api_ddd_template.Application.Presenter.{new_presenter}
use fast_api_ddd_template.Http.UseCases.{
  get_all_users_uc, get_user_uc, get_update_user_uc, get_create_user_uc, get_change_password_uc,
  get_delete_user_uc,
}
use fast_api_ddd_template.Http.Message.{Request, Reply, one_user, all_users, created_user}
use fast_api_ddd_template.Http.Presenting.{respond}

module _ (c : Clocks) (repr : String → String) (hash : UserRawPassword → Result UserPasswordHash)
    (request : Request) where
  -- GET /users
  unfoldable pub get_all_users : Action Reply
  get_all_users = do
    p ← get_all_users_uc c request new_presenter
    lift (respond 200 (λ (d : GetAllUsersOutputDto). all_users d.users) p)

  -- GET /users/{user_id}
  unfoldable pub get_user : String → Action Reply
  get_user user_id = do
    p ← get_user_uc c request (record { user_id = user_id }) new_presenter
    lift (respond 200 (λ (d : GetUserOutputDto). one_user d.user) p)

  -- PATCH /users/{user_id}
  unfoldable pub update_user : String → Option String → Option String → Action Reply
  update_user user_id username role = do
    p ←
        get_update_user_uc c request repr
          (record { user_id = user_id; username = username; role = role }) new_presenter
    lift (respond 200 (λ (d : UpdateUserOutputDto). one_user d.user) p)

  -- POST /users
  unfoldable pub create_user : UserId → CreateUserInputDto → Action Reply
  create_user new_id body = do
    p ← get_create_user_uc c request repr hash new_id body new_presenter
    lift (respond 201 created_user p)

  -- PATCH /users/{user_id}/password
  unfoldable pub change_password : String → String → Action Reply
  change_password user_id new_password = do
    p ←
        get_change_password_uc c request hash
          (record { user_id = user_id; new_password = new_password }) new_presenter
    lift (respond 200 (λ (d : ChangePasswordOutputDto). one_user d.user) p)

  -- DELETE /users/{user_id}
  unfoldable pub delete_user : String → Action Reply
  delete_user user_id = do
    p ← get_delete_user_uc c request (record { user_id = user_id }) new_presenter
    lift (respond 200 (λ (d : DeleteUserOutputDto). one_user d.user) p)
