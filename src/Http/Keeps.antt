-- ===== src/Http/Keeps.antt =====
-- The invariant of the tables under the login of routes/auth.py and the authentication service.
pub mod Tokens
pub mod Handlers
pub mod Service
use fast_api_ddd_template.Ports.Sql.{sql_ports}
use fast_api_ddd_template.Ports.Sql.Laws.{sql_laws}
use fast_api_ddd_template.Application.Keeps.Credentials.{authenticate_user-Preserves}
use fast_api_ddd_template.Base.{
  ℕ, ◌≡◌, refl, arith, Bool, true, false, not, Option, none, some, List, [], ◌∷◌, String,
  if◌then◌else◌,
}
use fast_api_ddd_template.Domain.Errors.{Error, Result, ok, err, http_exception}
use fast_api_ddd_template.Domain.Values.{
  UserId, Username, new_username, UserPasswordHash, UserRawPassword,
}
use fast_api_ddd_template.Domain.Uuid.{parse_uuid, uuid_text}
use fast_api_ddd_template.Domain.User.{User}
use fast_api_ddd_template.Database
use fast_api_ddd_template.Database.{Query, Db, Session, SessionRow, UserRow}
use fast_api_ddd_template.Database.Invariant.{IsValid, IsConsistent, IsOwned, IsReadable}
use fast_api_ddd_template.Database.Invariant.UserMethods.{
  IsHash, new_username-IsUsername, IsUsername,
}
use fast_api_ddd_template.Database.Ensures.{
  Returns, Anything, Ensures, Ensures-pure, Ensures-raise, Ensures-lift, Ensures-bind, Ensures-read,
  bind-at,
}
use fast_api_ddd_template.Database.UserRepo.{get_by_username}
use fast_api_ddd_template.Database.UserRepo.Keeps.{IsValid?, get_by_username-Ensures}
use fast_api_ddd_template.Database.SessionRepo.{
  Clocks, create, revoke, get_user_if_session_valid, join_by_hash, rotate_refresh_token,
  get_user_valid_session_by_refresh_token,
}
use fast_api_ddd_template.Database.SessionRepo.Keeps.{
  create-Ensures, revoke-Ensures, get_user_if_session_valid-Ensures, join_by_hash-IsJoined,
  rewrite_one-at,
}
use fast_api_ddd_template.World.{World, Action, Event}
use fast_api_ddd_template.World.Preserves.{Preserves, Returns-Anything}
use fast_api_ddd_template.UnitOfWork.{
  with_repo, with_repo_logging, user_repository, user_session_repo,
}
use fast_api_ddd_template.UnitOfWork.Preserves.{with_repo-Preserves, with_repo_logging-Preserves}
use fast_api_ddd_template.Auth.{AuthPayload, current_user}
use fast_api_ddd_template.Application.Dto.{AuthRequestDto, AuthResponseDto}
use fast_api_ddd_template.Application.Presenter.{Presenter, new_presenter}
use fast_api_ddd_template.Application.AuthenticateUser.{
  find_account, check_account, authenticate_user,
}
use fast_api_ddd_template.Http.Message.{Request, Reply}
use fast_api_ddd_template.Http.Presenting.{ok_response}
use fast_api_ddd_template.Http.AuthRoutes.{
  Settings, Draws, open_session, logged_in, login, rotate, refresh, logout,
}
use fast_api_ddd_template.Security.Jwt.{PyJwt, JwtTokenService}

-- A session is looked up by a query that leaves the tables as they are.
pub current_user-Preserves :
    (c : Clocks) (payload : AuthPayload) → Preserves Anything (current_user c payload)
unfolding current_user
current_user-Preserves c payload = record {
  at = λ w h.
      let q = get_user_if_session_valid c payload.user_id payload.session_id in
      (
        ground (
          arith,
          ((with_repo-Preserves user_session_repo q tt
                (get_user_if_session_valid-Ensures c payload.user_id payload.session_id)).at
              w h).0,
        ),
        Returns-Anything _,
      );
}

module _ (cfg : Settings) (jwt : PyJwt) (service : JwtTokenService) (sha256 : String → String)
    (draws : Draws) where
  logged_in-Preserves :
      (d : AuthResponseDto) → Preserves Anything (logged_in cfg jwt service sha256 draws d)
  unfolding logged_in
  logged_in-Preserves d = record {
    at = λ w h. (
      ground (
        arith,
        ((with_repo-Preserves user_session_repo (opened d.user_id) tt
              (opened-Ensures d.user_id (parse_uuid d.user_id) refl)).at
            w h).0,
      ),
      Returns-Anything _,
    );
  }
    where
      opened : String → Query SessionRow
      opened text = Database.◌>>=◌ (Database.lift (parse_uuid text)) (open_session cfg sha256 draws)

      opened-Ensures :
          (text : String) (r : Result ℕ) → parse_uuid text ≡ r → Ensures Anything (opened text)
      opened-Ensures text (ok i) e = record {
        at = λ s h. (
          ground (
            arith,
            e,
            ((create-Ensures draws.clocks draws.session_id i cfg.session_expiry_time
                  cfg.max_concurrent_sessions (sha256 draws.refresh_token)).at
                s h).0,
          ),
          Returns-Anything _,
        );
      }
      opened-Ensures text (err x) e = record { at = λ s h. (ground (arith, e), Returns-Anything _) }

  pub login-Preserves :
      (verify : UserRawPassword → UserPasswordHash → Result Bool) (username password : String)
      → Preserves Anything (login cfg jwt service sha256 draws verify username password)
  unfolding login
  login-Preserves verify username password = record {
    at = λ w h.
        let dto : AuthRequestDto = record { username = username; raw_password = password } in
        let k = ((authenticate_user-Preserves verify dto new_presenter).at w h).0 in
        (after w h (authenticate_user verify dto new_presenter w) refl k, Returns-Anything _);
  }
    where
      after :
          (w : World)
          → IsConsistent w.db
          → (x : Result (Presenter AuthResponseDto) × World)
          → authenticate_user verify
              (record { username = username; raw_password = password })
              new_presenter
              w
            ≡ x
          → IsConsistent x.1.db
          → IsConsistent (login cfg jwt service sha256 draws verify username password w).1.db
      after w h (ok p, v) e k =
          elim (ok_response p)
              as (λ o.
                ok_response p ≡ o
                → IsConsistent
                    (login cfg jwt service sha256 draws verify username password w).1.db) [
                      | none ↦ λ f. ground (arith, e, f, k)
                      | some d ↦ λ f. ground (arith, e, f, k, ((logged_in-Preserves d).at v k).0)
                    ]
            refl
      after w h (err x, v) e k = ground (arith, e, k)
