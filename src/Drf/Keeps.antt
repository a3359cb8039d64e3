-- ===== src/Drf/Keeps.antt =====
-- The invariant of the tables under app/interface/drf/views/users.py.
pub mod Tokens
pub mod Service
use fast_api_ddd_template.Ports.Django.{django_ports}
use fast_api_ddd_template.Ports.Django.Laws.{django_laws}
use fast_api_ddd_template.Base.{ℕ, ◌≡◌, refl, arith, Option, none, some, List, [], ◌∷◌, String}
use fast_api_ddd_template.Domain.Errors.{Result, ok, err}
use fast_api_ddd_template.Domain.Uuid.{uuid_text}
use fast_api_ddd_template.Domain.Values.{
  UserId, UserPasswordHash, UserRawPassword, UserRole, admin, user,
}
use fast_api_ddd_template.Database.Invariant.{IsConsistent}
use fast_api_ddd_template.Database.Invariant.UserMethods.{IsHasher}
use fast_api_ddd_template.Database.Ensures.{Anything}
use fast_api_ddd_template.Database.SessionRepo.{Clocks}
use fast_api_ddd_template.World
use fast_api_ddd_template.World.{World, Action}
use fast_api_ddd_template.World.Preserves.{
  Preserves, Preserves-lift, Preserves-bind, Returns-Anything,
}
use fast_api_ddd_template.UnitOfWork.{user_session_repo}
use fast_api_ddd_template.Auth.{AuthPayload}
use fast_api_ddd_template.DjangoOrm.Auth.{current_user}
use fast_api_ddd_template.DjangoOrm.SessionRepo.{get_user_if_session_valid}
use fast_api_ddd_template.DjangoOrm.SessionRepo.Keeps.{get_user_if_session_valid_keeps}
use fast_api_ddd_template.DjangoOrm.UnitOfWork.Preserves.{with_repo-Preserves}
use fast_api_ddd_template.Application.Presenter.{Presenter, new_presenter}
use fast_api_ddd_template.Application.Keeps.{execute-Preserves, run_create_user-Preserves}
use fast_api_ddd_template.Application.Keeps.Updates.{
  run_update_user-Preserves, run_change_password-Preserves,
}
use fast_api_ddd_template.Application.Keeps.Removals.{
  run_delete_user-Preserves, run_get_user-Preserves, run_get_all_users-Preserves,
}
use fast_api_ddd_template.Application.Authorize.{execute}
use fast_api_ddd_template.Application.CreateUser
use fast_api_ddd_template.Application.UpdateUser
use fast_api_ddd_template.Application.ChangePassword
use fast_api_ddd_template.Application.DeleteUser
use fast_api_ddd_template.Application.GetUser
use fast_api_ddd_template.Http.Message.{Request, Body}
use fast_api_ddd_template.Drf.Framework.{Framework, Input}
use fast_api_ddd_template.Drf.Serializers.{validate_create, validate_update, validate_password}
use fast_api_ddd_template.Drf.Presenting.{respond}
use fast_api_ddd_template.Drf.Dependencies.{
  get_auth_service, get_all_users_uc, get_create_user_uc, get_user_uc, get_update_user_uc,
  get_delete_user_uc, get_change_password_uc,
}
use fast_api_ddd_template.Drf.UserViews

pub current_user-Preserves :
    (c : Clocks) (payload : AuthPayload) → Preserves Anything (current_user c payload)
unfolding current_user
current_user-Preserves c payload = record {
  at = λ w h. (
    ground (
      arith,
      ((with_repo-Preserves user_session_repo
            (get_user_if_session_valid c payload.user_id payload.session_id) tt
            (get_user_if_session_valid_keeps c payload.user_id payload.session_id)).at
          w h).0,
    ),
    Returns-Anything _,
  );
}

get_auth_service-Preserves :
    (c : Clocks) (request : Request) → Preserves Anything (get_auth_service c request)
unfolding get_auth_service
get_auth_service-Preserves c request = record {
  at = λ w h. (keeps w h request.auth_payload refl, Returns-Anything _);
}
  where
    keeps :
        (w : World)
        → IsConsistent w.db
        → (o : Option AuthPayload) → request.auth_payload ≡ o
        → IsConsistent (get_auth_service c request w).1.db
    keeps w h (some payload) e = ground (arith, e, ((current_user-Preserves c payload).at w h).0)
    keeps w h none e = ground (arith, e)

-- The end of a view.
responded :
    {D : Type 0} (status : ℕ) (body : D → Body) (m : Action (Presenter D))
    → Preserves Anything m
    → Preserves Anything (World.◌>>=◌ m (λ p. World.lift (respond status body p)))
responded status body m k = record {
  at = λ w h. (ground (arith, (k.at w h).0), Returns-Anything _);
}

-- A view that validates its body first.
validated :
    {A B : Type 0} (r : Result A) (f : A → Action B)
    → ((a : A) → Preserves Anything (f a))
    → Preserves {A = B} Anything (World.◌>>=◌ (World.lift r) f)
validated r f k =
    Preserves-bind {P = Anything} (World.lift r) f (Preserves-lift r (Returns-Anything r))
      (λ a _. k a)

module _ (c : Clocks) (request : Request) where
  -- A use case, run for the user that the request's token stands for.
  executed :
      {D : Type 0} (name : String) (required : List UserRole)
      (run : Presenter D → Action (Presenter D))
      → Preserves Anything (run new_presenter)
      → Preserves Anything (execute (get_auth_service c request) name required run new_presenter)
  executed name required run k =
      execute-Preserves (get_auth_service c request) name required run new_presenter
        (get_auth_service-Preserves c request) k

  pub list_users-Preserves : Preserves Anything (UserViews.list_users c request)
  unfolding UserViews.list_users get_all_users_uc GetUser.get_all_users
  list_users-Preserves = responded 200 _ (get_all_users_uc c request new_presenter) (
      executed "GetAllUsersUseCase" (admin ∷ user ∷ []) GetUser.run_get_all_users
        (run_get_all_users-Preserves new_presenter))

  pub retrieve-Preserves : (user_id : ℕ) → Preserves Anything (UserViews.retrieve c request user_id)
  unfolding UserViews.retrieve get_user_uc GetUser.get_user
  retrieve-Preserves user_id = responded 200 _ (get_user_uc c request _ new_presenter) (
      executed "GetUserUseCase" (admin ∷ user ∷ [])
        (GetUser.run_get_user (record { user_id = uuid_text user_id }))
        (run_get_user-Preserves _ new_presenter))

  pub delete-Preserves : (user_id : ℕ) → Preserves Anything (UserViews.delete c request user_id)
  unfolding UserViews.delete get_delete_user_uc DeleteUser.delete_user
  delete-Preserves user_id = responded 200 _ (get_delete_user_uc c request _ new_presenter) (
      executed "DeleteUserUseCase" (admin ∷ [])
        (DeleteUser.run_delete_user (get_auth_service c request)
          (record { user_id = uuid_text user_id }))
        (run_delete_user-Preserves (get_auth_service c request) _ new_presenter
          (get_auth_service-Preserves c request)))

module _ (f : Framework) (c : Clocks) (repr : String → String)
    (hash : UserRawPassword → Result UserPasswordHash) (is_hasher : IsHasher hash)
    (request : Request) where
  pub post-Preserves :
      (new_id : UserId) (username password role : Input)
      → Preserves Anything (UserViews.post f c repr hash request new_id username password role)
  unfolding UserViews.post get_create_user_uc CreateUser.create_user
  post-Preserves new_id username password role =
      validated (validate_create f username password role) _ λ body.
        responded 201 _ (get_create_user_uc c request repr hash new_id body new_presenter) (
          executed c request "CreateUserUseCase" (admin ∷ [])
            (CreateUser.run_create_user repr hash new_id body)
            (run_create_user-Preserves repr hash is_hasher new_id body new_presenter))

  pub patch-Preserves :
      (user_id : ℕ) (username role : Input)
      → Preserves Anything (UserViews.patch f c repr hash request user_id username role)
  unfolding UserViews.patch get_update_user_uc UpdateUser.update_user
  patch-Preserves user_id username role = validated (validate_update f username role) _ λ given.
      responded 200 _ (get_update_user_uc c request repr _ new_presenter) (
        executed c request "UpdateUserUseCase" (admin ∷ [])
          (UpdateUser.run_update_user repr
            (record { user_id = uuid_text user_id; username = given.0; role = given.1 }))
          (run_update_user-Preserves repr _ new_presenter))

  pub patch_password-Preserves :
      (user_id : ℕ) (new_password : Input)
      → Preserves Anything (UserViews.patch_password f c repr hash request user_id new_password)
  unfolding UserViews.patch_password get_change_password_uc ChangePassword.change_password
  patch_password-Preserves user_id new_password =
      validated (validate_password f new_password) _ λ text.
        responded 200 _ (get_change_password_uc c request hash _ new_presenter) (
          executed c request "ChangePasswordUseCase" (admin ∷ [])
            (ChangePassword.run_change_password hash
              (record { user_id = uuid_text user_id; new_password = text }))
            (run_change_password-Preserves hash is_hasher _ new_presenter))
