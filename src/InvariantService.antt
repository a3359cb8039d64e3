-- ===== src/InvariantService.antt =====
-- app/domain/services/user_invariant_service.py: `UserInvariantService` over the repository.
use fast_api_ddd_template.Base.{Bool, true, false, not, Option, none, some, concat}
use fast_api_ddd_template.Domain.Errors
use fast_api_ddd_template.Domain.Errors.{Result, duplicate_username_error, self_deletion_error}
use fast_api_ddd_template.Domain.Values.{UserId, Username, id_eq}
use fast_api_ddd_template.Domain.User.{User}
use fast_api_ddd_template.Database.{Query, ◌>>=◌, lift}
use fast_api_ddd_template.Ports.{Ports}

-- `exclude_user_id is None or existing.id != exclude_user_id`
abbrev is_other : User → Option UserId → Bool
is_other u none = true
is_other u (some i) = not (id_eq u.id i)

abbrev pub conflicts : Option User → Option UserId → Bool
conflicts none exclude = false
conflicts (some u) exclude = is_other u exclude

unfoldable pub ensure_username_unique :
    ⦃ports : Ports⦄ → Username → Option UserId → Query (Unit {0})
ensure_username_unique ⦃ports⦄ username exclude = do
  existing ← ports.get_by_username username
  lift (
      Errors.raise_if (conflicts existing exclude) (
        duplicate_username_error
          (concat "Username '" (concat username.value "' is already taken."))))

unfoldable pub ensure_not_self_deletion : UserId → UserId → Result (Unit {0})
ensure_not_self_deletion current target =
    Errors.raise_if (id_eq current target) (self_deletion_error "Admin cannot delete themselves.")
