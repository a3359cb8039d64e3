-- ===== src/Http/AdminOnly.antt =====
-- The accounts, under the queries on sessions and the reads.
pub mod Accounts
pub mod Calls
use fast_api_ddd_template.Base.{
  ℕ, zero, suc, ◌≡◌, ◌≢◌, refl, sym, arith, Bool, true, false, not, Option, none, some, List, [],
  ◌∷◌, String, if◌then◌else◌, Bool-cases, inl, inr, ap, ◌∙◌, exists,
}
use fast_api_ddd_template.Domain.Errors.{Error, Result, ok, err}
use fast_api_ddd_template.Domain.Uuid.{parse_uuid, uuid_text}
use fast_api_ddd_template.Domain.Values.{
  UserId, UserRawPassword, UserPasswordHash, Username, new_username,
}
use fast_api_ddd_template.Domain.User.{User}
use fast_api_ddd_template.Database
use fast_api_ddd_template.Database.{UserRow, SessionRow, Db, Session, Query}
use fast_api_ddd_template.Database.Schema.{insert_session, update_session}
use fast_api_ddd_template.Database.UserRepo.{found, get_by_id, get_by_username, get_all}
use fast_api_ddd_template.Database.SessionRepo.{
  Clocks, create_write, create, rotate_refresh_token, set_revoked, revoke,
  get_user_if_session_valid, get_user_valid_session_by_refresh_token,
}
use fast_api_ddd_template.World.{World, Event}
use fast_api_ddd_template.UnitOfWork.Manager.{log_unhandled}
use fast_api_ddd_template.UnitOfWork.{
  Interface, with_repo, with_repo_logging, user_repository, user_session_repo,
}
use fast_api_ddd_template.UnitOfWork.Atomic.{
  IsRegistered, with_repo-atomic, with_repo_logging-atomic,
}
use fast_api_ddd_template.Auth.{AuthPayload, current_user}
use fast_api_ddd_template.Security.Jwt.{PyJwt, JwtTokenService}
use fast_api_ddd_template.Application.Dto.{AuthRequestDto, AuthResponseDto}
use fast_api_ddd_template.Application.Presenter.{Presenter, new_presenter}
use fast_api_ddd_template.Application.AuthenticateUser.{
  find_account, check_account, authenticate_user,
}
use fast_api_ddd_template.Http.Message.{Request, Reply}
use fast_api_ddd_template.Http.Presenting.{ok_response}
use fast_api_ddd_template.Http.AuthRoutes.{
  Settings, Draws, open_session, logged_in, login, rotate, refresh, logout,
}

-- A query that leaves the accounts as they are.
abbrev pub KeepsUsers : {A : Type 0} → Query A → Type 0
KeepsUsers q = (s : Session) → (q s).1.db.users ≡ s.db.users

log_unhandled-users : (e : Error) (w : World) → (log_unhandled e w).db ≡ w.db
log_unhandled-users e w = ground arith

pub with_repo-users :
    {A : Type 0} (iface : Interface) (q : Query A) (w : World)
    → IsRegistered iface
    → KeepsUsers q
    → (with_repo iface q w).1.db.users ≡ w.db.users
with_repo-users iface q w i k =
    ground (arith, with_repo-atomic iface q w i, k (record { db = w.db; failed = false }))

pub with_repo_logging-users :
    {A : Type 0} (iface : Interface) (q : Query A) (event : A → Event) (w : World)
    → IsRegistered iface
    → KeepsUsers q
    → (with_repo_logging iface q event w).1.db.users ≡ w.db.users
with_repo_logging-users iface q event w i k =
    ground
      (arith, with_repo_logging-atomic iface q event w i, k (record { db = w.db; failed = false }))

found-users : (o : Option UserRow) → KeepsUsers (found o)
found-users none s = refl
found-users (some r) s = ground arith

pub get_by_id-users : (i : UserId) → KeepsUsers (get_by_id i)
unfolding get_by_id
get_by_id-users i s = found-users _ s

pub get_by_username-users : (n : Username) → KeepsUsers (get_by_username n)
unfolding get_by_username
get_by_username-users n s = found-users _ s

pub get_all-users : KeepsUsers get_all
unfolding get_all
get_all-users s = refl

pub create-users :
    (c : Clocks) (new_id user_id expiry_time max_sessions : ℕ) (hash : String)
    → KeepsUsers (create c new_id user_id expiry_time max_sessions hash)
unfolding create create_write insert_session
create-users c new_id user_id expiry_time zero hash s = refl
create-users c new_id user_id expiry_time (suc keep) hash s = ground arith

pub revoke-users : (c : Clocks) (i : ℕ) → KeepsUsers (revoke c i)
unfolding revoke update_session
revoke-users c i s = ground arith

pub rotate-users :
    (cfg : Settings) (sha256 : String → String) (draws : Draws) (token : String)
    → KeepsUsers (rotate cfg sha256 draws token)
unfolding rotate get_user_valid_session_by_refresh_token rotate_refresh_token update_session
rotate-users cfg sha256 draws token s = ground arith
