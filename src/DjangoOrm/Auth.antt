-- ===== src/DjangoOrm/Auth.antt =====
-- app/infrastructure/db/django_orm/adapters/services.py: `TokenSessionAuthServiceDjango`.
pub mod Agrees
use fast_api_ddd_template.Base.{not, none, some, str_eq, if◌then◌else◌}
use fast_api_ddd_template.Domain.Errors.{not_authenticated_error}
use fast_api_ddd_template.Domain.Values.{role_text}
use fast_api_ddd_template.Domain.User.{User}
use fast_api_ddd_template.Database.Mapping.{to_domain}
use fast_api_ddd_template.Database.SessionRepo.{Clocks}
use fast_api_ddd_template.World.{Action, ◌>>=◌, raise, lift}
use fast_api_ddd_template.UnitOfWork.{user_session_repo}
use fast_api_ddd_template.Auth.{AuthPayload}
use fast_api_ddd_template.DjangoOrm.SessionRepo.{get_user_if_session_valid}
use fast_api_ddd_template.DjangoOrm.UnitOfWork.{with_repo}

unfoldable pub current_user : Clocks → AuthPayload → Action User
current_user c payload = do
  found ←
      with_repo user_session_repo (get_user_if_session_valid c payload.user_id payload.session_id)
  elim found [
    | none ↦ raise (not_authenticated_error "Not authorized.")
    | some r ↦
        if not (str_eq (role_text r.role) payload.role)
        then raise (not_authenticated_error "Not authorized.")
        else lift (to_domain r)
  ]
