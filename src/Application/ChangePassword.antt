-- ===== src/Application/ChangePassword.antt =====
-- app/application/use_cases/change_password.py: `ChangePasswordUseCase`. The hasher is given.
use fast_api_ddd_template.Base.{none, some, [], ◌∷◌, concat}
use fast_api_ddd_template.Domain.Errors.{
  Result, message, is_domain_error, is_domain_or_value_error, is_value_or_object_error,
  ◌>>=◌ as bind_result,
}
use fast_api_ddd_template.Domain.Values.{
  UserId, UserRawPassword, UserPasswordHash, admin, id_text, new_raw_password, user_id_from_str,
}
use fast_api_ddd_template.Domain.User
use fast_api_ddd_template.Domain.User.{User}
use fast_api_ddd_template.Database
use fast_api_ddd_template.Database.{Query, ◌>>=◌, ◌>>◌}
use fast_api_ddd_template.Ports.{Ports}
use fast_api_ddd_template.World
use fast_api_ddd_template.World.{Action, password_changed, pure, lift, write_log, try_except}
use fast_api_ddd_template.Application.Dto.{
  ChangePasswordInputDto, ChangePasswordOutputDto, user_dto,
}
use fast_api_ddd_template.Application.Presenter.{Presenter, present, domain_error, not_found}
use fast_api_ddd_template.Application.Exit.{Exit, returned, continued}
use fast_api_ddd_template.Application.Authorize.{execute}

-- `user.change_password(pwd_hash); await repo.update(user)`
unfoldable pub rehash : ⦃ports : Ports⦄ → UserPasswordHash → User → Query User
rehash ⦃ports⦄ pwd_hash u = do
  u' ← Database.lift (User.change_password pwd_hash u)
  ports.update u'
  Database.pure u'

-- The body of the unit of work.
unfoldable pub change_body :
    ⦃ports : Ports⦄
    → UserPasswordHash
    → Presenter ChangePasswordOutputDto
    → UserId
    → Query (Exit (Presenter ChangePasswordOutputDto))
unfolding rehash
change_body ⦃ports⦄ pwd_hash p user_id = do
  found ← ports.get_by_id user_id
  elim found [
    | none ↦ Database.pure (returned (not_found "User not found" p))
    | some u ↦
        Database.try_except (rehash pwd_hash u) is_domain_error
          (λ e.
            Database.pure
              (returned (domain_error (concat "Password cannot be changed: " (message e)) p)))
          (λ u'. Database.pure (continued u'))
  ]

module _ (hash : UserRawPassword → Result UserPasswordHash) where
  unfoldable pub run_change_password :
      ⦃ports : Ports⦄
      → ChangePasswordInputDto
      → Presenter ChangePasswordOutputDto
      → Action (Presenter ChangePasswordOutputDto)
  unfolding change_body
  run_change_password ⦃ports⦄ dto p =
      try_except (lift (user_id_from_str dto.user_id)) is_value_or_object_error
        (λ e. pure (domain_error (message e) p))
        λ user_id.
          try_except (lift (bind_result (new_raw_password dto.new_password) hash))
            is_domain_or_value_error
            (λ e. pure (domain_error (concat "Password cannot be changed: " (message e)) p))
            λ pwd_hash. World.◌>>=◌ (ports.with_users (change_body pwd_hash p user_id)) λ exit.
              elim exit [
                | returned p' ↦ pure p'
                | continued u ↦
                    World.◌>>◌ (write_log (password_changed (id_text u.id)))
                      (pure (present (record { user = user_dto u }) p))
              ]

  -- `execute` of this use case.
  unfoldable pub change_password :
      ⦃ports : Ports⦄
      → Action User
      → ChangePasswordInputDto
      → Presenter ChangePasswordOutputDto
      → Action (Presenter ChangePasswordOutputDto)
  unfolding run_change_password execute
  change_password current_user dto =
      execute current_user "ChangePasswordUseCase" (admin ∷ []) (run_change_password dto)
