-- ===== src/Application/Keeps.antt =====
-- The invariant of the tables under app/application/use_cases: the gate of base.py, and the
-- creation of users.
pub mod Updates
pub mod Removals
pub mod Credentials
use fast_api_ddd_template.Ports.{Ports}
use fast_api_ddd_template.Ports.Laws.{IsLawful}
use fast_api_ddd_template.Base.{
  ◌≡◌, refl, arith, Bool, true, false, not, Option, none, some, List, [], ◌∷◌, String, concat,
  if◌then◌else◌,
}
use fast_api_ddd_template.Domain.Errors.{
  Error, Result, ok, err, message, is_domain_error, is_domain_or_value_error,
  is_value_or_object_error, is_duplicate_username_error, is_self_deletion_error,
  is_not_authorized_error, ◌>>=◌ as bind_result,
}
use fast_api_ddd_template.Domain.Values.{
  UserId, Username, UserPasswordHash, UserRole, UserRawPassword, id_text, new_username,
  new_raw_password, new_user_role, user_id_from_str,
}
use fast_api_ddd_template.Domain.User.{
  User, create, change_username, change_password, change_role, deactivate,
}
use fast_api_ddd_template.Database.{Query}
use fast_api_ddd_template.Database
use fast_api_ddd_template.Database.Invariant.{IsValid, IsConsistent}
use fast_api_ddd_template.Database.Invariant.UserMethods.{
  IsHasher, IsUsername, IsHash, Returns-of, Returns-bind, new_username-IsUsername, create-IsValid,
  change_username-IsValid, change_password-IsValid, change_role-IsValid, deactivate-IsValid,
}
use fast_api_ddd_template.Database.Ensures.{
  Returns, Anything, Ensures, Ensures-pure, Ensures-raise, Ensures-lift, Ensures-bind, Ensures-try,
}
use fast_api_ddd_template.Database.UserRepo.Keeps.{IsValid?}
use fast_api_ddd_template.World
use fast_api_ddd_template.World.{World, Action, Event, try_except, write_log, lift, pure}
use fast_api_ddd_template.World.Preserves.{
  Preserves, Preserves-pure, Preserves-lift, Preserves-write_log, Preserves-bind, Preserves-try,
  Preserves-if, Returns-Anything,
}
use fast_api_ddd_template.InvariantService.{ensure_username_unique, ensure_not_self_deletion}
use fast_api_ddd_template.Application.Dto.{
  CreateUserInputDto, CreateUserOutputDto, GetUserOutputDto, GetAllUsersOutputDto,
  UpdateUserOutputDto, ChangePasswordOutputDto, DeleteUserOutputDto, UpdateUserInputDto,
  ChangePasswordInputDto, DeleteUserInputDto, GetUserInputDto,
}
use fast_api_ddd_template.Application.Presenter.{Presenter}
use fast_api_ddd_template.Application.Exit.{Exit, returned, continued}
use fast_api_ddd_template.Application.Authorize.{execute, check_role, is_unauthenticated}
use fast_api_ddd_template.Application.CreateUser.{make_user, register, run_create_user}
use fast_api_ddd_template.Application.UpdateUser.{update_found, update_body, run_update_user}
use fast_api_ddd_template.Application.UpdateUser.Apply.{apply_username, apply_role, apply_changes}
use fast_api_ddd_template.Application.ChangePassword.{rehash, change_body, run_change_password}
use fast_api_ddd_template.Application.DeleteUser.{retire, delete_body, run_delete_user}
use fast_api_ddd_template.Application.GetUser.{run_get_user, run_get_all_users}

-- From `execute` on: a use case keeps the invariant if its `run` does.
pub execute-Preserves :
    {D : Type 0} (current_user : Action User) (name : String) (required : List UserRole)
    (run : Presenter D → Action (Presenter D)) (p : Presenter D)
    → Preserves Anything current_user
    → Preserves Anything (run p)
    → Preserves Anything (execute current_user name required run p)
unfolding execute
execute-Preserves current_user name required run p kc kr = record {
  at = λ w h.
      let k = (kc.at w h).0 in
      (ground (arith, k, (kr.at (current_user w).1 k).0), Returns-Anything _);
}

module _ ⦃ports : Ports⦄ ⦃laws : IsLawful ports⦄ where
  pub ensure_username_unique-Ensures :
      (n : Username) (exclude : Option UserId) → Ensures Anything (ensure_username_unique n exclude)
  unfolding ensure_username_unique
  ensure_username_unique-Ensures n exclude = record {
    at = λ s h. (ground (arith, ((laws.get_by_username_ensures n).at s h).0), Returns-Anything _);
  }

  register-Ensures : (u : User) → IsValid u → Ensures Anything (register u)
  unfolding register
  register-Ensures u v = record {
    at = λ s h.
        let k = ((ensure_username_unique-Ensures u.username none).at s h).0 in
        (
          ground (
            arith,
            k,
            ((laws.add_ensures u v).at (ensure_username_unique u.username none s).1 k).0,
          ),
          Returns-Anything _,
        );
  }

  module _ (repr : String → String) (hash : UserRawPassword → Result UserPasswordHash)
      (is_hasher : IsHasher hash) where
    make_user-IsValid :
        (new_id : UserId) (dto : CreateUserInputDto)
        → Returns IsValid (make_user repr hash new_id dto)
    unfolding make_user
    make_user-IsValid new_id dto =
        Returns-bind {P = Anything} IsValid (new_raw_password dto.password) _ (Returns-Anything _)
          λ raw _. Returns-bind IsValid (hash raw) _ (is_hasher raw) λ pwd_hash h.
            Returns-bind IsValid (new_username dto.username) _
              (new_username-IsUsername dto.username)
              λ n b.
                Returns-bind {P = Anything} IsValid (new_user_role repr dto.role) _
                  (Returns-Anything _) λ role _. create-IsValid new_id n pwd_hash role b h

    pub run_create_user-Preserves :
        (new_id : UserId) (dto : CreateUserInputDto) (p : Presenter CreateUserOutputDto)
        → Preserves Anything (run_create_user repr hash new_id dto p)
    unfolding run_create_user
    run_create_user-Preserves new_id dto p = record {
      at = λ w h. (
        keeps w h (make_user repr hash new_id dto) refl (make_user-IsValid new_id dto),
        Returns-Anything _,
      );
    }
      where
        keeps :
            (w : World)
            → IsConsistent w.db
            → (r : Result User) → make_user repr hash new_id dto ≡ r
            → Returns IsValid r
            → IsConsistent (run_create_user repr hash new_id dto p w).1.db
        keeps w h (ok u) e v =
            ground
              (arith, e, ((laws.with_users_preserves (register u) (register-Ensures u v)).at w h).0)
        keeps w h (err x) e v = ground (arith, e)
