-- ===== src/Application/Authorize.antt =====
-- app/application/use_cases/base.py: `AuthorizeUserUseCase`. The authentication service, the
-- name of the use case, its roles and its `run` are given.
use fast_api_ddd_template.Base.{Bool, not, ◌||◌, List, String, if◌then◌else◌, exists}
use fast_api_ddd_template.Domain.Errors
use fast_api_ddd_template.Domain.Errors.{
  Error, Result, ok, not_authorized_error, is_domain_error, is_not_authenticated_error,
  is_not_authorized_error,
}
use fast_api_ddd_template.Domain.Values.{UserRole, role_eq, id_text}
use fast_api_ddd_template.Domain.User.{User}
use fast_api_ddd_template.World.{Action, access_denied, ◌>>◌, pure, lift, write_log, try_except}
use fast_api_ddd_template.Application.Presenter.{Presenter, unauthorized, forbidden}

-- `check_role`
unfoldable pub check_role : UserRole → List UserRole → Result (Unit {0})
check_role r required =
    Errors.raise_if (not (exists (λ (q : UserRole). role_eq q r) required))
      (not_authorized_error "Target role not in required roles.")

-- `except (NotAuthenticatedError, DomainError)`
abbrev pub is_unauthenticated : Error → Bool
is_unauthenticated e = is_not_authenticated_error e || is_domain_error e

-- `execute`
unfoldable pub execute :
    {D : Type 0}
    → Action User
    → String
    → List UserRole
    → (Presenter D → Action (Presenter D))
    → Presenter D
    → Action (Presenter D)
unfolding check_role
execute current_user use_case required run p =
    try_except current_user is_unauthenticated (λ _. pure (unauthorized "Not authorized" p))
      λ u.
        if not u.is_active
        then pure (unauthorized "Not authorized" p)
        else try_except (lift (check_role u.role required)) is_not_authorized_error
            (λ _. do
              write_log (access_denied use_case (id_text u.id))
              pure (forbidden "Forbidden" p))
            (λ _. run p)
