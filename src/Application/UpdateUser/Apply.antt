-- ===== src/Application/UpdateUser/Apply.antt =====
-- app/application/use_cases/update_user.py: the changes that `run` makes to the loaded user, and
-- their persistence.
use fast_api_ddd_template.Base.{Option, none, some, String}
use fast_api_ddd_template.Domain.Errors
use fast_api_ddd_template.Domain.Errors.{Result, ok}
use fast_api_ddd_template.Domain.Values.{new_username, new_user_role}
use fast_api_ddd_template.Domain.User.{User, change_username, change_role}
use fast_api_ddd_template.Database.{Query, ◌>>=◌, ◌>>◌, pure, lift}
use fast_api_ddd_template.Ports.{Ports}
use fast_api_ddd_template.InvariantService.{ensure_username_unique}
use fast_api_ddd_template.Application.Dto.{UpdateUserInputDto}

-- `if dto.username is not None: ...`
unfoldable pub apply_username : ⦃ports : Ports⦄ → Option String → User → Query User
apply_username none u = pure u
apply_username (some text) u = do
  username ← lift (new_username text)
  ensure_username_unique username (some u.id)
  again ← lift (new_username text)
  lift (change_username again u)

-- `if dto.role is not None: ...`
unfoldable pub apply_role : (String → String) → Option String → User → Result User
apply_role repr none u = ok u
apply_role repr (some text) u = Errors.◌>>=◌ (new_user_role repr text) λ role. change_role role u

unfoldable pub apply_changes :
    ⦃ports : Ports⦄ → (String → String) → UpdateUserInputDto → User → Query User
unfolding apply_username apply_role
apply_changes ⦃ports⦄ repr dto u = do
  renamed ← apply_username dto.username u
  changed ← lift (apply_role repr dto.role renamed)
  ports.update changed
  pure changed
