-- ===== src/Application/DeleteUser.antt =====
-- app/application/use_cases/delete_user.py: `DeleteUserUseCase`.
use fast_api_ddd_template.Base.{none, some, [], ◌∷◌, concat}
use fast_api_ddd_template.Domain.Errors.{
  message, is_domain_error, is_self_deletion_error, is_value_or_object_error,
}
use fast_api_ddd_template.Domain.Values.{UserId, admin, id_text, user_id_from_str}
use fast_api_ddd_template.Domain.User.{User, deactivate}
use fast_api_ddd_template.Database
use fast_api_ddd_template.Database.{Query, ◌>>=◌, ◌>>◌}
use fast_api_ddd_template.Ports.{Ports}
use fast_api_ddd_template.World
use fast_api_ddd_template.World.{Action, user_deleted, pure, lift, write_log, try_except}
use fast_api_ddd_template.InvariantService.{ensure_not_self_deletion}
use fast_api_ddd_template.Application.Dto.{DeleteUserInputDto, DeleteUserOutputDto, user_dto}
use fast_api_ddd_template.Application.Presenter.{
  Presenter, present, bad_request, domain_error, not_found,
}
use fast_api_ddd_template.Application.Exit.{Exit, returned, continued}
use fast_api_ddd_template.Application.Authorize.{execute}

-- `user.deactivate(); await repo.update(user)`
unfoldable pub retire : ⦃ports : Ports⦄ → User → Query User
retire ⦃ports⦄ u = do u' ← Database.lift (deactivate u); ports.update u'; Database.pure u'

-- The body of the unit of work.
unfoldable pub delete_body :
    ⦃ports : Ports⦄
    → Presenter DeleteUserOutputDto
    → UserId
    → Query (Exit (Presenter DeleteUserOutputDto))
unfolding retire
delete_body ⦃ports⦄ p target_id = do
  found ← ports.get_by_id target_id
  elim found [
    | none ↦ Database.pure (returned (not_found "User not found" p))
    | some u ↦
        Database.try_except (retire u) is_domain_error
          (λ e.
            Database.pure
              (returned (domain_error (concat "User cannot be deleted: " (message e)) p)))
          (λ u'. Database.pure (continued u'))
  ]

-- `run`, which asks the authentication service for the current user again.
unfoldable pub run_delete_user :
    ⦃ports : Ports⦄
    → Action User
    → DeleteUserInputDto
    → Presenter DeleteUserOutputDto
    → Action (Presenter DeleteUserOutputDto)
unfolding delete_body
run_delete_user ⦃ports⦄ current_user dto p =
    try_except (lift (user_id_from_str dto.user_id)) is_value_or_object_error
      (λ e. pure (domain_error (message e) p))
      λ target_id. World.◌>>=◌ current_user λ current.
        try_except (lift (ensure_not_self_deletion current.id target_id)) is_self_deletion_error
          (λ _. pure (bad_request "Admin cannot delete themselves" p))
          λ _. World.◌>>=◌ (ports.with_users (delete_body p target_id)) λ exit. elim exit [
            | returned p' ↦ pure p'
            | continued u ↦
                World.◌>>◌ (write_log (user_deleted (id_text u.id)))
                  (pure (present (record { user = user_dto u }) p))
          ]

-- `execute` of this use case.
unfoldable pub delete_user :
    ⦃ports : Ports⦄
    → Action User
    → DeleteUserInputDto
    → Presenter DeleteUserOutputDto
    → Action (Presenter DeleteUserOutputDto)
unfolding run_delete_user execute
delete_user current_user dto =
    execute current_user "DeleteUserUseCase" (admin ∷ []) (run_delete_user current_user dto)
