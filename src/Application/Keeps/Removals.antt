-- ===== src/Application/Keeps/Removals.antt =====
-- The invariant of the tables under delete_user.py, get_user.py and get_all_users.py.
use fast_api_ddd_template.Ports.{Ports}
use fast_api_ddd_template.Ports.Laws.{IsLawful}
use fast_api_ddd_template.Base.{◌≡◌, refl, arith}
use fast_api_ddd_template.Domain.Errors.{Result, ok, err}
use fast_api_ddd_template.Domain.Values.{UserId, user_id_from_str}
use fast_api_ddd_template.Domain.User.{User, deactivate}
use fast_api_ddd_template.Database.{Query}
use fast_api_ddd_template.Database
use fast_api_ddd_template.Database.Invariant.{IsValid, IsConsistent}
use fast_api_ddd_template.Database.Invariant.UserMethods.{deactivate-IsValid}
use fast_api_ddd_template.Database.Ensures.{
  Anything, Ensures, Ensures-pure, Ensures-lift, Ensures-bind,
}
use fast_api_ddd_template.World.{World, Action}
use fast_api_ddd_template.World.Preserves.{Preserves, Returns-Anything}
use fast_api_ddd_template.Application.Dto.{
  GetUserOutputDto, GetAllUsersOutputDto, DeleteUserOutputDto, DeleteUserInputDto, GetUserInputDto,
}
use fast_api_ddd_template.Application.Presenter.{Presenter}
use fast_api_ddd_template.Application.DeleteUser.{retire, delete_body, run_delete_user}
use fast_api_ddd_template.Application.GetUser.{run_get_user, run_get_all_users}
use fast_api_ddd_template.Application.Keeps.Updates.{found-Ensures, persist, persist-Ensures}

module _ ⦃ports : Ports⦄ ⦃laws : IsLawful ports⦄ where
  retire-Ensures : (u : User) → IsValid u → Ensures IsValid (retire u)
  unfolding retire
  retire-Ensures u v =
      Ensures-bind (Database.lift (deactivate u)) persist
        (Ensures-lift (deactivate u) (deactivate-IsValid u v)) persist-Ensures

  delete_body-Ensures :
      (p : Presenter DeleteUserOutputDto) (i : UserId) → Ensures Anything (delete_body p i)
  unfolding delete_body
  delete_body-Ensures p i = found-Ensures i _ _ (Ensures-pure _ tt) λ u v. record {
    at = λ s h. (ground (arith, ((retire-Ensures u v).at s h).0), Returns-Anything _);
  }

  pub run_delete_user-Preserves :
      (current_user : Action User) (dto : DeleteUserInputDto) (p : Presenter DeleteUserOutputDto)
      → Preserves Anything current_user
      → Preserves Anything (run_delete_user current_user dto p)
  unfolding run_delete_user
  run_delete_user-Preserves current_user dto p kc = record {
    at = λ w h. (keeps w h (user_id_from_str dto.user_id) refl, Returns-Anything _);
  }
    where
      keeps :
          (w : World)
          → IsConsistent w.db
          → (r : Result UserId) → user_id_from_str dto.user_id ≡ r
          → IsConsistent (run_delete_user current_user dto p w).1.db
      keeps w h (ok i) e =
          let k = (kc.at w h).0 in
          ground (
            arith,
            e,
            k,
            ((laws.with_users_preserves (delete_body p i) (delete_body-Ensures p i)).at
                (current_user w).1 k).0,
          )
      keeps w h (err x) e = ground (arith, e)

  pub run_get_user-Preserves :
      (dto : GetUserInputDto) (p : Presenter GetUserOutputDto)
      → Preserves Anything (run_get_user dto p)
  unfolding run_get_user
  run_get_user-Preserves dto p = record {
    at = λ w h. (keeps w h (user_id_from_str dto.user_id) refl, Returns-Anything _);
  }
    where
      keeps :
          (w : World)
          → IsConsistent w.db
          → (r : Result UserId) → user_id_from_str dto.user_id ≡ r
          → IsConsistent (run_get_user dto p w).1.db
      keeps w h (ok i) e = ground (
        arith,
        e,
        ((laws.with_users_preserves (ports.get_by_id i) (laws.get_by_id_ensures i)).at w h).0,
      )
      keeps w h (err x) e = ground (arith, e)

  pub run_get_all_users-Preserves :
      (p : Presenter GetAllUsersOutputDto) → Preserves Anything (run_get_all_users p)
  unfolding run_get_all_users
  run_get_all_users-Preserves p = record {
    at = λ w h. (
      ground (arith, ((laws.with_users_preserves ports.get_all laws.get_all_ensures).at w h).0),
      Returns-Anything _,
    );
  }
