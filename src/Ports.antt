-- ===== src/Ports.antt =====
-- app/domain/repositories/user_repo.py and app/application/ports/uow.py: what a use case takes
-- from the infrastructure. A use case is given the repository of users and the unit of work of
-- the stack that it runs on.
pub mod Laws
pub mod Sql
pub mod Django
use fast_api_ddd_template.Base.{Option, List}
use fast_api_ddd_template.Domain.Values.{UserId, Username}
use fast_api_ddd_template.Domain.User.{User}
use fast_api_ddd_template.Database.{Query}
use fast_api_ddd_template.World.{Action}

-- `UserRepository`, and `async with uow_factory() as uow` around calls of the repository that
-- `uow.get_repo(UserRepository)` returns.
pub record Ports : Type 1 where
  pub get_by_id : UserId → Query (Option User)
  pub get_by_username : Username → Query (Option User)
  pub add : User → Query (Unit {0})
  pub update : User → Query (Unit {0})
  pub get_all : Query (List User)
  pub with_users : {A : Type 0} → Query A → Action A
