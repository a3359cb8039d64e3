-- ===== src/Application/Keeps/Credentials.antt =====
-- The invariant of the tables under authenticate_user.py.
use fast_api_ddd_template.Base.{◌≡◌, refl, arith, Bool, String}
use fast_api_ddd_template.Domain.Errors.{Result, ok, err}
use fast_api_ddd_template.Domain.Values.{Username, UserRawPassword, UserPasswordHash, new_username}
use fast_api_ddd_template.Database.{Session}
use fast_api_ddd_template.Database.Invariant.{IsConsistent}
use fast_api_ddd_template.Database.Ensures.{Anything, Ensures}
use fast_api_ddd_template.World.Preserves.{Preserves, Returns-Anything}
use fast_api_ddd_template.Ports.{Ports}
use fast_api_ddd_template.Ports.Laws.{IsLawful}
use fast_api_ddd_template.Application.Dto.{AuthRequestDto, AuthResponseDto}
use fast_api_ddd_template.Application.Presenter.{Presenter}
use fast_api_ddd_template.Application.AuthenticateUser.{find_account, authenticate_user}

module _ ⦃ports : Ports⦄ ⦃laws : IsLawful ports⦄ where
  find_account-Ensures : (name : String) → Ensures Anything (find_account name)
  unfolding find_account
  find_account-Ensures name = record {
    at = λ s h. (keeps s h (new_username name) refl, Returns-Anything _);
  }
    where
      keeps :
          (s : Session)
          → IsConsistent s.db
          → (r : Result Username) → new_username name ≡ r
          → IsConsistent (find_account name s).1.db
      keeps s h (ok n) e = ground (arith, e, ((laws.get_by_username_ensures n).at s h).0)
      keeps s h (err x) e = ground (arith, e)

  module _ (verify : UserRawPassword → UserPasswordHash → Result Bool) where
    -- Checking credentials reads the tables and writes none.
    pub authenticate_user-Preserves :
        (dto : AuthRequestDto) (p : Presenter AuthResponseDto)
        → Preserves Anything (authenticate_user verify dto p)
    unfolding authenticate_user
    authenticate_user-Preserves dto p = record {
      at = λ w h. (
        ground (
          arith,
          ((laws.with_users_preserves (find_account dto.username)
                (find_account-Ensures dto.username)).at
              w h).0,
        ),
        Returns-Anything _,
      );
    }
