-- ===== src/Http/AdminOnly/Calls.antt =====
-- The accounts, under the handlers of every call.
use fast_api_ddd_template.Ports.Sql.{sql_ports}
use fast_api_ddd_template.Base.{ℕ, ◌≡◌, refl, arith, Bool, true, false, List, [], ◌∷◌, String}
use fast_api_ddd_template.Domain.Errors.{Result, ok, err}
use fast_api_ddd_template.Domain.Values.{UserId}
use fast_api_ddd_template.Domain.User.{User}
use fast_api_ddd_template.Database.UserRepo.{get_by_id, get_all}
use fast_api_ddd_template.World.{World, Event}
use fast_api_ddd_template.UnitOfWork.{user_repository}
use fast_api_ddd_template.Application.Presenter.{Presenter, new_presenter}
use fast_api_ddd_template.Http.Message.{Request}
use fast_api_ddd_template.Http.AuthRoutes.{Draws}
use fast_api_ddd_template.Http.AdminOnly.{with_repo-users, get_by_id-users, get_all-users}
use fast_api_ddd_template.Domain.Values.{UserRole, admin, user, user_id_from_str}
use fast_api_ddd_template.World
use fast_api_ddd_template.World.{Action}
use fast_api_ddd_template.Application.Authorize.{execute}
use fast_api_ddd_template.Application.Dto.{GetUserInputDto, GetUserOutputDto, GetAllUsersOutputDto}
use fast_api_ddd_template.Application.CreateUser
use fast_api_ddd_template.Application.UpdateUser
use fast_api_ddd_template.Application.ChangePassword
use fast_api_ddd_template.Application.DeleteUser
use fast_api_ddd_template.Application.GetUser
use fast_api_ddd_template.Http.Message.{Body}
use fast_api_ddd_template.Http.Presenting.{respond}
use fast_api_ddd_template.Http.UserRoutes
use fast_api_ddd_template.Http.UseCases.{auth_service}
use fast_api_ddd_template.Http.Routes.{Call, Deployment, handle}
use fast_api_ddd_template.Http.AdminOnly.Accounts.{
  auth_service-users, login-users, refresh-users, logout-users,
}

-- The account that acts, if it is an active administrator.
abbrev pub NoAdmin : Action User → World → Type 0
NoAdmin current w =
    (u : User) (v : World) → current w ≡ (ok u, v) → u.role ≡ admin → u.is_active ≡ true → ⊥

-- A use case for administrators leaves the accounts if no administrator asks.
execute-denied :
    {D : Type 0} (current : Action User) (name : String) (run : Presenter D → Action (Presenter D))
    (p : Presenter D) (w : World)
    → NoAdmin current w
    → (current w).1.db.users ≡ w.db.users
    → (execute current name (admin ∷ []) run p w).1.db.users ≡ w.db.users
unfolding execute
execute-denied current name run p w n k = asked (current w) refl
  where
    asked :
        (x : Result User × World)
        → current w ≡ x
        → (execute current name (admin ∷ []) run p w).1.db.users ≡ w.db.users
    asked (err x, v) e = ground (arith, e, k)
    asked (ok u, v) e = active (u.is_active) refl
      where
        active :
            (b : Bool)
            → u.is_active ≡ b
            → (execute current name (admin ∷ []) run p w).1.db.users ≡ w.db.users
        active false f = ground (arith, e, f, k)
        active true f = has_role u.role refl
          where
            has_role :
                (r : UserRole)
                → u.role ≡ r
                → (execute current name (admin ∷ []) run p w).1.db.users ≡ w.db.users
            has_role admin g = absurd (n u v e g f)
            has_role user g = ground (arith, e, f, g, k)

-- A use case that reads leaves the accounts, whoever asks.
execute-reads :
    {D : Type 0} (current : Action User) (name : String) (required : List UserRole)
    (run : Presenter D → Action (Presenter D)) (p : Presenter D) (w : World)
    → (current w).1.db.users ≡ w.db.users
    → ((v : World) → (run p v).1.db.users ≡ v.db.users)
    → (execute current name required run p w).1.db.users ≡ w.db.users
unfolding execute
execute-reads current name required run p w k r = ground (arith, k, r (current w).1)

run_get_user-users :
    (dto : GetUserInputDto) (p : Presenter GetUserOutputDto) (w : World)
    → (GetUser.run_get_user dto p w).1.db.users ≡ w.db.users
unfolding GetUser.run_get_user
run_get_user-users dto p w = read (user_id_from_str dto.user_id) refl
  where
    read :
        (r : Result UserId)
        → user_id_from_str dto.user_id ≡ r
        → (GetUser.run_get_user dto p w).1.db.users ≡ w.db.users
    read (ok i) e =
        ground (arith, e, with_repo-users user_repository (get_by_id i) w tt (get_by_id-users i))
    read (err x) e = ground (arith, e)

run_get_all_users-users :
    (p : Presenter GetAllUsersOutputDto) (w : World)
    → (GetUser.run_get_all_users p w).1.db.users ≡ w.db.users
unfolding GetUser.run_get_all_users
run_get_all_users-users p w =
    ground (arith, with_repo-users user_repository get_all w tt get_all-users)

-- The end of a route.
responded :
    {D : Type 0} (status : ℕ) (body : D → Body) (m : Action (Presenter D)) (w : World)
    → (m w).1.db.users ≡ w.db.users
    → (World.◌>>=◌ m (λ p. World.lift (respond status body p)) w).1.db.users ≡ w.db.users
responded status body m w k = ground (arith, k)

module _ (d : Deployment) (draws : Draws) (new_id : UserId) (request : Request) (w : World) where
  abbrev asking : Action User
  asking = auth_service draws.clocks request

  asking-users : (asking w).1.db.users ≡ w.db.users
  asking-users = auth_service-users draws.clocks request w

  -- Unless the authentication service takes the request's token for that of an active
  -- administrator, no call changes an account, whatever its handler returns or raises.
  pub handle-users :
      (call : Call)
      → NoAdmin asking w
      → (handle d draws new_id call request w).1.db.users ≡ w.db.users
  unfolding handle UserRoutes.get_all_users GetUser.get_all_users UserRoutes.get_user
      GetUser.get_user UserRoutes.update_user UpdateUser.update_user UserRoutes.create_user
      CreateUser.create_user UserRoutes.change_password ChangePassword.change_password
      UserRoutes.delete_user DeleteUser.delete_user
  handle-users (Call.login username password) n =
      login-users d.cfg d.jwt d.service d.sha256 draws d.verify username password w
  handle-users (Call.refresh token) n = refresh-users d.cfg d.jwt d.service d.sha256 draws token w
  handle-users Call.logout n = logout-users draws.clocks request w
  handle-users Call.get_all_users n =
      responded 200 _ (GetUser.get_all_users asking new_presenter) w (
        execute-reads asking "GetAllUsersUseCase" (admin ∷ user ∷ []) GetUser.run_get_all_users
          new_presenter w asking-users (run_get_all_users-users new_presenter))
  handle-users (Call.get_user user_id) n =
      responded 200 _ (GetUser.get_user asking (record { user_id = user_id }) new_presenter) w (
        execute-reads asking "GetUserUseCase" (admin ∷ user ∷ [])
          (GetUser.run_get_user (record { user_id = user_id })) new_presenter w asking-users
          (run_get_user-users (record { user_id = user_id }) new_presenter))
  handle-users (Call.update_user user_id username role) n =
      responded 200 _
        (UpdateUser.update_user d.repr asking
          (record { user_id = user_id; username = username; role = role }) new_presenter)
        w
        (execute-denied asking "UpdateUserUseCase"
          (UpdateUser.run_update_user d.repr
            (record { user_id = user_id; username = username; role = role }))
          new_presenter w n asking-users)
  handle-users (Call.create_user body) n =
      responded 201 _ (CreateUser.create_user d.repr d.hash asking new_id body new_presenter) w (
        execute-denied asking "CreateUserUseCase"
          (CreateUser.run_create_user d.repr d.hash new_id body) new_presenter w n asking-users)
  handle-users (Call.change_password user_id new_password) n =
      responded 200 _
        (ChangePassword.change_password d.hash asking
          (record { user_id = user_id; new_password = new_password }) new_presenter)
        w
        (execute-denied asking "ChangePasswordUseCase"
          (ChangePassword.run_change_password d.hash
            (record { user_id = user_id; new_password = new_password }))
          new_presenter w n asking-users)
  handle-users (Call.delete_user user_id) n =
      responded 200 _ (DeleteUser.delete_user asking (record { user_id = user_id }) new_presenter) w
        (execute-denied asking "DeleteUserUseCase"
          (DeleteUser.run_delete_user asking (record { user_id = user_id })) new_presenter w n
          asking-users)
  handle-users Call.health n = refl
