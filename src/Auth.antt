-- ===== src/Auth.antt =====
-- app/infrastructure/db/sqlalchemy/adapters/services.py: `TokenSessionAuthService`.
pub mod Lockout
pub mod Sound
pub mod Accepts
pub mod Opened
use fast_api_ddd_template.Base.{ℕ, not, none, some, String, str_eq, if◌then◌else◌}
use fast_api_ddd_template.Domain.Errors.{not_authenticated_error}
use fast_api_ddd_template.Domain.Values.{role_text}
use fast_api_ddd_template.Domain.User.{User}
use fast_api_ddd_template.Database.Mapping.{to_domain}
use fast_api_ddd_template.Database.SessionRepo.{Clocks, get_user_if_session_valid}
use fast_api_ddd_template.World.{Action, ◌>>=◌, raise, lift}
use fast_api_ddd_template.UnitOfWork.{with_repo, user_session_repo}

pub record AuthPayload : Type 0 where
  pub user_id : ℕ
  pub session_id : ℕ
  pub role : String

unfoldable pub current_user : Clocks → AuthPayload → Action User
current_user c payload = do
  found ←
      with_repo user_session_repo (get_user_if_session_valid c payload.user_id payload.session_id)
  elim found [
    | none ↦ raise (not_authenticated_error "Not authorized.")
    | some r ↦
        if not (str_eq (role_text r.role) payload.role)
        then raise (not_authenticated_error "Not authorized.")
        else lift (to_domain r)
  ]
