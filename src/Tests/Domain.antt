-- ===== src/Tests/Domain.antt =====
-- Examples of the domain.
use fast_api_ddd_template.Base.{◌≡◌, ◌≢◌, ◌⊎◌, ◌≤◌, ◌↔◌, count, length}
use fast_api_ddd_template.Domain.Errors.{ok, err, domain_error}
use fast_api_ddd_template.Domain.Values.{
  Username, UserRawPassword, UserPasswordHash, admin, role_text, new_username, new_raw_password,
  new_password_hash, new_user_role,
}
use fast_api_ddd_template.Domain.Values.Bounds.{value_objects_iff}
use fast_api_ddd_template.Domain.User.Laws.{renames, call, target, refusal, call_lem}
use fast_api_ddd_template.Tests.Data.{root_user, sevens, repr}

abbrev mary : Username
mary = record { value = "mary_smith" }

call_lem_example :
    ((root_user ≢ target (renames mary) root_user)
      × (call (renames mary) root_user ≡ ok (target (renames mary) root_user)))
    ⊎ ((root_user ≡ target (renames mary) root_user)
        × (call (renames mary) root_user ≡ err (domain_error (refusal (renames mary)))))
call_lem_example = call_lem (renames mary) root_user

abbrev hunter : UserRawPassword
hunter = record { value = "hunter22" }

abbrev digest : UserPasswordHash
digest = record { value = sevens 60 }

value_objects_iff_example :
    ((new_username "mary_smith" ≡ ok mary)
      ↔ ((mary.value ≡ "mary_smith") × (5 ≤ count "mary_smith") × (count "mary_smith" ≤ 20)))
    × ((new_raw_password "mary_smith" ≡ ok hunter)
        ↔ ((hunter.value ≡ "mary_smith") × (6 ≤ count "mary_smith") × (count "mary_smith" ≤ 20)))
    × ((new_password_hash (sevens 60) ≡ ok digest)
        ↔ ((digest.value ≡ sevens 60) × (length (sevens 60) ≡ 60)))
    × ((new_user_role repr "mary_smith" ≡ ok admin) ↔ ("mary_smith" ≡ role_text admin))
value_objects_iff_example = value_objects_iff repr "mary_smith" (sevens 60) mary hunter digest admin
