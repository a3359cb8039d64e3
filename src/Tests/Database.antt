-- ===== src/Tests/Database.antt =====
-- Examples of the unit of work and of the repositories.
use fast_api_ddd_template.Base.{◌≡◌}
use fast_api_ddd_template.Database.UserRepo.{add}
use fast_api_ddd_template.UnitOfWork.{with_repo, user_repository}
use fast_api_ddd_template.UnitOfWork.Atomic.{atomic, with_repo-atomic}
use fast_api_ddd_template.Tests.Data.{root_user, world}

-- An insert that the primary key refuses.
with_repo-atomic_example :
    with_repo user_repository (add root_user) world ≡ atomic (add root_user) world
with_repo-atomic_example = with_repo-atomic user_repository (add root_user) world tt
