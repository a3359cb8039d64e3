-- ===== src/Http/Keeps/Handlers.antt =====
-- The invariant of the tables under the handler of every call.
use fast_api_ddd_template.Ports.Sql.{sql_ports}
use fast_api_ddd_template.Ports.Sql.Laws.{sql_laws}
use fast_api_ddd_template.Base.{ℕ, ◌≡◌, refl, arith, Option, none, some, List, [], ◌∷◌, String}
use fast_api_ddd_template.Domain.Errors.{Result}
use fast_api_ddd_template.Domain.Values.{
  UserId, UserPasswordHash, UserRawPassword, UserRole, admin, user,
}
use fast_api_ddd_template.Database.Invariant.{IsConsistent}
use fast_api_ddd_template.Database.Invariant.UserMethods.{IsHasher}
use fast_api_ddd_template.Database.Ensures.{Anything}
use fast_api_ddd_template.Database.SessionRepo.{Clocks}
use fast_api_ddd_template.World
use fast_api_ddd_template.World.{World, Action}
use fast_api_ddd_template.World.Preserves.{Preserves, Returns-Anything}
use fast_api_ddd_template.Auth.{AuthPayload}
use fast_api_ddd_template.Application.Presenter.{Presenter, new_presenter}
use fast_api_ddd_template.Application.Dto.{CreateUserInputDto}
use fast_api_ddd_template.Application.Keeps.{execute-Preserves, run_create_user-Preserves}
use fast_api_ddd_template.Application.Keeps.Updates.{
  run_update_user-Preserves, run_change_password-Preserves,
}
use fast_api_ddd_template.Application.Keeps.Removals.{
  run_delete_user-Preserves, run_get_user-Preserves, run_get_all_users-Preserves,
}
use fast_api_ddd_template.Application.Authorize.{execute}
use fast_api_ddd_template.Application.CreateUser
use fast_api_ddd_template.Application.UpdateUser
use fast_api_ddd_template.Application.ChangePassword
use fast_api_ddd_template.Application.DeleteUser
use fast_api_ddd_template.Application.GetUser
use fast_api_ddd_template.Http.Message.{Request, Body}
use fast_api_ddd_template.Http.Presenting.{respond}
use fast_api_ddd_template.Http.UserRoutes
use fast_api_ddd_template.Http.UseCases.{auth_service}
use fast_api_ddd_template.Http.AuthRoutes.{Draws}
use fast_api_ddd_template.Http.Keeps.{current_user-Preserves, login-Preserves}
use fast_api_ddd_template.Http.Keeps.Tokens.{refresh-Preserves, logout-Preserves}
use fast_api_ddd_template.Http.Routes.{Call, Deployment, handle}

auth_service-Preserves :
    (c : Clocks) (request : Request) → Preserves Anything (auth_service c request)
auth_service-Preserves c request = record {
  at = λ w h. (keeps w h request.auth_payload refl, Returns-Anything _);
}
  where
    keeps :
        (w : World)
        → IsConsistent w.db
        → (o : Option AuthPayload) → request.auth_payload ≡ o
        → IsConsistent (auth_service c request w).1.db
    keeps w h (some payload) e = ground (arith, e, ((current_user-Preserves c payload).at w h).0)
    keeps w h none e = ground (arith, e)

-- The end of a route of users.
module _ {D : Type 0} (status : ℕ) (body : D → Body) (m : Action (Presenter D)) where
  responded :
      Preserves Anything m
      → Preserves Anything (World.◌>>=◌ m (λ p. World.lift (respond status body p)))
  responded k = record { at = λ w h. (ground (arith, (k.at w h).0), Returns-Anything _) }

module _ (c : Clocks) (repr : String → String) (hash : UserRawPassword → Result UserPasswordHash)
    (is_hasher : IsHasher hash) (request : Request) where
  -- A use case, run for the user that the request's token stands for.
  executed :
      {D : Type 0} (name : String) (required : List UserRole)
      (run : Presenter D → Action (Presenter D))
      → Preserves Anything (run new_presenter)
      → Preserves Anything (execute (auth_service c request) name required run new_presenter)
  executed name required run k =
      execute-Preserves (auth_service c request) name required run new_presenter
        (auth_service-Preserves c request) k

  get_all_users-Preserves : Preserves Anything (UserRoutes.get_all_users c repr hash request)
  unfolding UserRoutes.get_all_users GetUser.get_all_users
  get_all_users-Preserves =
      responded 200 _ (GetUser.get_all_users (auth_service c request) new_presenter) (
        executed "GetAllUsersUseCase" (admin ∷ user ∷ []) GetUser.run_get_all_users
          (run_get_all_users-Preserves new_presenter))

  get_user-Preserves :
      (user_id : String) → Preserves Anything (UserRoutes.get_user c repr hash request user_id)
  unfolding UserRoutes.get_user GetUser.get_user
  get_user-Preserves user_id =
      responded 200 _ (GetUser.get_user (auth_service c request) _ new_presenter) (
        executed "GetUserUseCase" (admin ∷ user ∷ [])
          (GetUser.run_get_user (record { user_id = user_id }))
          (run_get_user-Preserves _ new_presenter))

  update_user-Preserves :
      (user_id : String) (username role : Option String)
      → Preserves Anything (UserRoutes.update_user c repr hash request user_id username role)
  unfolding UserRoutes.update_user UpdateUser.update_user
  update_user-Preserves user_id username role =
      responded 200 _ (UpdateUser.update_user repr (auth_service c request) _ new_presenter) (
        executed "UpdateUserUseCase" (admin ∷ [])
          (UpdateUser.run_update_user repr
            (record { user_id = user_id; username = username; role = role }))
          (run_update_user-Preserves repr _ new_presenter))

  create_user-Preserves :
      (new_id : UserId) (body : CreateUserInputDto)
      → Preserves Anything (UserRoutes.create_user c repr hash request new_id body)
  unfolding UserRoutes.create_user CreateUser.create_user
  create_user-Preserves new_id body =
      responded 201 _
        (CreateUser.create_user repr hash (auth_service c request) new_id body new_presenter)
        (executed "CreateUserUseCase" (admin ∷ [])
          (CreateUser.run_create_user repr hash new_id body)
          (run_create_user-Preserves repr hash is_hasher new_id body new_presenter))

  change_password-Preserves :
      (user_id new_password : String)
      → Preserves Anything (UserRoutes.change_password c repr hash request user_id new_password)
  unfolding UserRoutes.change_password ChangePassword.change_password
  change_password-Preserves user_id new_password =
      responded 200 _ (ChangePassword.change_password hash (auth_service c request) _ new_presenter)
        (executed "ChangePasswordUseCase" (admin ∷ [])
          (ChangePassword.run_change_password hash
            (record { user_id = user_id; new_password = new_password }))
          (run_change_password-Preserves hash is_hasher _ new_presenter))

  delete_user-Preserves :
      (user_id : String) → Preserves Anything (UserRoutes.delete_user c repr hash request user_id)
  unfolding UserRoutes.delete_user DeleteUser.delete_user
  delete_user-Preserves user_id =
      responded 200 _ (DeleteUser.delete_user (auth_service c request) _ new_presenter) (
        executed "DeleteUserUseCase" (admin ∷ [])
          (DeleteUser.run_delete_user (auth_service c request) (record { user_id = user_id }))
          (run_delete_user-Preserves (auth_service c request) _ new_presenter
            (auth_service-Preserves c request)))

pub handle-Preserves :
    (d : Deployment) (draws : Draws) (new_id : UserId) (call : Call) (request : Request)
    → IsHasher d.hash
    → Preserves Anything (handle d draws new_id call request)
unfolding handle
handle-Preserves d draws new_id (Call.login username password) request k =
    login-Preserves d.cfg d.jwt d.service d.sha256 draws d.verify username password
handle-Preserves d draws new_id (Call.refresh token) request k =
    refresh-Preserves d.cfg d.jwt d.service d.sha256 draws token
handle-Preserves d draws new_id Call.logout request k = logout-Preserves draws.clocks request
handle-Preserves d draws new_id Call.get_all_users request k =
    get_all_users-Preserves draws.clocks d.repr d.hash k request
handle-Preserves d draws new_id (Call.get_user user_id) request k =
    get_user-Preserves draws.clocks d.repr d.hash k request user_id
handle-Preserves d draws new_id (Call.update_user user_id username role) request k =
    update_user-Preserves draws.clocks d.repr d.hash k request user_id username role
handle-Preserves d draws new_id (Call.create_user body) request k =
    create_user-Preserves draws.clocks d.repr d.hash k request new_id body
handle-Preserves d draws new_id (Call.change_password user_id new_password) request k =
    change_password-Preserves draws.clocks d.repr d.hash k request user_id new_password
handle-Preserves d draws new_id (Call.delete_user user_id) request k =
    delete_user-Preserves draws.clocks d.repr d.hash k request user_id
handle-Preserves d draws new_id Call.health request k = record { at = λ w h. (h, tt) }
