-- ===== src/Http/AdminOnly/Accounts.antt =====
-- The accounts, under the handlers of routes/auth.py and the authentication service.
use fast_api_ddd_template.Ports.Sql.{sql_ports}
use fast_api_ddd_template.Base.{ℕ, ◌≡◌, refl, arith, Bool, Option, none, some, String}
use fast_api_ddd_template.Domain.Errors.{Result, ok, err}
use fast_api_ddd_template.Domain.Uuid.{parse_uuid, uuid_text}
use fast_api_ddd_template.Domain.Values.{UserRawPassword, UserPasswordHash, Username, new_username}
use fast_api_ddd_template.Database
use fast_api_ddd_template.Database.{UserRow, SessionRow, Db, Session, Query}
use fast_api_ddd_template.Database.SessionRepo.{Clocks, revoke, get_user_if_session_valid}
use fast_api_ddd_template.World.{World, Event}
use fast_api_ddd_template.UnitOfWork.{user_repository, user_session_repo}
use fast_api_ddd_template.Auth.{AuthPayload, current_user}
use fast_api_ddd_template.Security.Jwt.{PyJwt, JwtTokenService}
use fast_api_ddd_template.Application.Dto.{AuthRequestDto, AuthResponseDto}
use fast_api_ddd_template.Application.Presenter.{Presenter, new_presenter}
use fast_api_ddd_template.Application.AuthenticateUser.{
  find_account, check_account, authenticate_user,
}
use fast_api_ddd_template.Http.Message.{Request}
use fast_api_ddd_template.Http.Presenting.{ok_response}
use fast_api_ddd_template.Http.AuthRoutes.{
  Settings, Draws, open_session, logged_in, login, rotate, refresh, logout,
}
use fast_api_ddd_template.Http.AdminOnly.{
  KeepsUsers, with_repo-users, with_repo_logging-users, get_by_username-users, create-users,
  revoke-users, rotate-users,
}
use fast_api_ddd_template.Http.UseCases.{auth_service}

current_user-users :
    (c : Clocks) (payload : AuthPayload) (w : World)
    → (current_user c payload w).1.db.users ≡ w.db.users
unfolding current_user get_user_if_session_valid
current_user-users c payload w = ground (
  arith,
  with_repo-users user_session_repo (get_user_if_session_valid c payload.user_id payload.session_id)
      w tt (λ s. refl),
)

pub auth_service-users :
    (c : Clocks) (request : Request) (w : World)
    → (auth_service c request w).1.db.users ≡ w.db.users
auth_service-users c request w = asked request.auth_payload refl
  where
    asked :
        (o : Option AuthPayload)
        → request.auth_payload ≡ o
        → (auth_service c request w).1.db.users ≡ w.db.users
    asked none e = ground (arith, e)
    asked (some payload) e = ground (arith, e, current_user-users c payload w)

find_account-users : (name : String) → KeepsUsers (find_account name)
unfolding find_account
find_account-users name s = made (new_username name) refl
  where
    made :
        (r : Result Username)
        → new_username name ≡ r
        → (find_account name s).1.db.users ≡ s.db.users
    made (ok n) e = ground (arith, e, get_by_username-users n s)
    made (err x) e = ground (arith, e)

authenticate_user-users :
    (verify : UserRawPassword → UserPasswordHash → Result Bool) (dto : AuthRequestDto)
    (p : Presenter AuthResponseDto) (w : World)
    → (authenticate_user verify dto p w).1.db.users ≡ w.db.users
unfolding authenticate_user check_account
authenticate_user-users verify dto p w = ground (
  arith,
  with_repo-users user_repository (find_account dto.username) w tt
      (find_account-users dto.username),
)

module _ (cfg : Settings) (jwt : PyJwt) (service : JwtTokenService) (sha256 : String → String)
    (draws : Draws) where
  opened-users :
      (text : String)
      → KeepsUsers
          (Database.◌>>=◌ (Database.lift (parse_uuid text)) (open_session cfg sha256 draws))
  unfolding open_session
  opened-users text s = read (parse_uuid text) refl
    where
      read :
          (r : Result ℕ)
          → parse_uuid text ≡ r
          → (Database.◌>>=◌
              (Database.lift (parse_uuid text))
              (open_session cfg sha256 draws)
              s).1.db.users
            ≡ s.db.users
      read (ok i) e = ground (
        arith,
        e,
        create-users draws.clocks draws.session_id i cfg.session_expiry_time
            cfg.max_concurrent_sessions (sha256 draws.refresh_token) s,
      )
      read (err x) e = ground (arith, e)

  logged_in-users :
      (d : AuthResponseDto) (w : World)
      → (logged_in cfg jwt service sha256 draws d w).1.db.users ≡ w.db.users
  unfolding logged_in
  logged_in-users d w = ground (
    arith,
    with_repo-users user_session_repo
        (Database.◌>>=◌ (Database.lift (parse_uuid d.user_id)) (open_session cfg sha256 draws)) w tt
        (opened-users d.user_id),
  )

  pub login-users :
      (verify : UserRawPassword → UserPasswordHash → Result Bool) (username password : String)
      (w : World)
      → (login cfg jwt service sha256 draws verify username password w).1.db.users ≡ w.db.users
  unfolding login
  login-users verify username password w =
      after (authenticate_user verify dto new_presenter w) refl
        (authenticate_user-users verify dto new_presenter w)
    where
      dto : AuthRequestDto
      dto = record { username = username; raw_password = password }

      after :
          (x : Result (Presenter AuthResponseDto) × World)
          → authenticate_user verify dto new_presenter w ≡ x
          → (authenticate_user verify dto new_presenter w).1.db.users ≡ w.db.users
          → (login cfg jwt service sha256 draws verify username password w).1.db.users ≡ w.db.users
      after (err x, v) e k = ground (arith, e, k)
      after (ok p, v) e k = responded (ok_response p) refl
        where
          responded :
              (o : Option AuthResponseDto)
              → ok_response p ≡ o
              → (login cfg jwt service sha256 draws verify username password w).1.db.users
                ≡ w.db.users
          responded none f = ground (arith, e, f, k)
          responded (some d) f = ground (arith, e, f, k, logged_in-users d v)

  pub refresh-users :
      (token : String) (w : World)
      → (refresh cfg jwt service sha256 draws token w).1.db.users ≡ w.db.users
  unfolding refresh
  refresh-users token w = ground (
    arith,
    with_repo_logging-users user_session_repo (rotate cfg sha256 draws token)
        (λ (u, s). Event.token_refresh (uuid_text u.id) (uuid_text s.id)) w tt
        (rotate-users cfg sha256 draws token),
  )

pub logout-users :
    (c : Clocks) (request : Request) (w : World) → (logout c request w).1.db.users ≡ w.db.users
unfolding logout
logout-users c request w = asked request.auth_payload refl
  where
    asked :
        (o : Option AuthPayload)
        → request.auth_payload ≡ o
        → (logout c request w).1.db.users ≡ w.db.users
    asked none e = ground (arith, e)
    asked (some a) e = ground (
      arith,
      e,
      with_repo-users user_session_repo (revoke c a.session_id) w tt (revoke-users c a.session_id),
    )
