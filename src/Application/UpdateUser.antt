-- ===== src/Application/UpdateUser.antt =====
-- app/application/use_cases/update_user.py: `UpdateUserUseCase`.
use fast_api_ddd_template.Base.{
  Bool, true, false, Option, none, some, List, [], ◌∷◌, String, concat, if◌then◌else◌,
}
use fast_api_ddd_template.Domain.Errors.{
  Error, Result, message, is_domain_or_value_error, is_value_or_object_error,
  is_duplicate_username_error,
}
use fast_api_ddd_template.Domain.Values.{
  UserId, UserRole, admin, id_text, new_username, new_user_role, user_id_from_str,
}
use fast_api_ddd_template.Domain.User.{User, change_username, change_role}
use fast_api_ddd_template.Database
use fast_api_ddd_template.Database.{Query}
use fast_api_ddd_template.Ports.{Ports}
use fast_api_ddd_template.World.{
  Action, user_updated, ◌>>=◌, ◌>>◌, pure, lift, write_log, try_except,
}
use fast_api_ddd_template.InvariantService.{ensure_username_unique}
use fast_api_ddd_template.Application.Dto.{UpdateUserInputDto, UpdateUserOutputDto, user_dto}
use fast_api_ddd_template.Application.Presenter.{
  Presenter, present, bad_request, domain_error, conflict, not_found,
}
use fast_api_ddd_template.Application.Exit.{Exit, returned, continued}
use fast_api_ddd_template.Application.Authorize.{execute}
pub mod Apply
use Apply.{apply_changes}

module _ (repr : String → String) where
  abbrev nothing_to_update : UpdateUserInputDto → Bool
  nothing_to_update dto = elim dto.username [
    | some n ↦ false
    | none ↦ elim dto.role [ some r ↦ false | none ↦ true ]
  ]

  -- The inner `try`, whose failures report and return.
  unfoldable pub update_found :
      ⦃ports : Ports⦄
      → UpdateUserInputDto
      → Presenter UpdateUserOutputDto
      → User
      → Query (Exit (Presenter UpdateUserOutputDto))
  unfolding apply_changes
  update_found dto p u =
      Database.try_except (apply_changes repr dto u) is_domain_or_value_error
        (λ e. Database.pure (
          returned (
            if is_duplicate_username_error e
            then conflict "Username already exists" p
            else domain_error (concat "User cannot be updated: " (message e)) p)))
        (λ u'. Database.pure (continued u'))

  -- The body of the unit of work.
  unfoldable pub update_body :
      ⦃ports : Ports⦄
      → UpdateUserInputDto
      → Presenter UpdateUserOutputDto
      → UserId
      → Query (Exit (Presenter UpdateUserOutputDto))
  unfolding update_found
  update_body ⦃ports⦄ dto p user_id = Database.◌>>=◌ (ports.get_by_id user_id) λ found. elim found [
    | none ↦ Database.pure (returned (not_found "User not found" p))
    | some u ↦ update_found dto p u
  ]

  unfoldable pub run_update_user :
      ⦃ports : Ports⦄
      → UpdateUserInputDto
      → Presenter UpdateUserOutputDto
      → Action (Presenter UpdateUserOutputDto)
  unfolding update_body
  run_update_user ⦃ports⦄ dto p =
      try_except (lift (user_id_from_str dto.user_id)) is_value_or_object_error
        (λ e. pure (domain_error (message e) p))
        λ user_id. if nothing_to_update dto then pure (bad_request "No fields to update" p) else do
          exit ← ports.with_users (update_body dto p user_id)
          elim exit [
            | returned p' ↦ pure p'
            | continued u ↦
                write_log (user_updated (id_text u.id))
                >> pure (present (record { user = user_dto u }) p)
          ]

  -- `execute` of this use case.
  unfoldable pub update_user :
      ⦃ports : Ports⦄
      → Action User
      → UpdateUserInputDto
      → Presenter UpdateUserOutputDto
      → Action (Presenter UpdateUserOutputDto)
  unfolding run_update_user execute
  update_user current_user dto =
      execute current_user "UpdateUserUseCase" (admin ∷ []) (run_update_user dto)
