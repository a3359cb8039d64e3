-- ===== src/Ports/Sql.antt =====
-- The ports on SQLAlchemy, as app/interface/http/routes/dependencies.py injects them.
pub mod Laws
use fast_api_ddd_template.Database.UserRepo
use fast_api_ddd_template.UnitOfWork.{with_repo, user_repository}
use fast_api_ddd_template.Ports.{Ports}

instance abbrev pub sql_ports : Ports
sql_ports = record {
  get_by_id = UserRepo.get_by_id;
  get_by_username = UserRepo.get_by_username;
  add = UserRepo.add;
  update = UserRepo.update;
  get_all = UserRepo.get_all;
  with_users = with_repo user_repository;
}
