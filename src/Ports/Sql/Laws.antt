-- ===== src/Ports/Sql/Laws.antt =====
-- The ports on SQLAlchemy are lawful.
use fast_api_ddd_template.Database.UserRepo.Keeps.{
  get_by_id-Ensures, get_by_username-Ensures, add-Ensures, update-Ensures, get_all-Ensures,
}
use fast_api_ddd_template.UnitOfWork.{user_repository}
use fast_api_ddd_template.UnitOfWork.Preserves.{with_repo-Preserves}
use fast_api_ddd_template.Ports.Laws.{IsLawful}
use fast_api_ddd_template.Ports.Sql.{sql_ports}

instance pub sql_laws : IsLawful sql_ports
sql_laws = record {
  get_by_id_ensures = get_by_id-Ensures;
  get_by_username_ensures = get_by_username-Ensures;
  add_ensures = add-Ensures;
  update_ensures = update-Ensures;
  get_all_ensures = get_all-Ensures;
  with_users_preserves = λ q k. with_repo-Preserves user_repository q tt k;
}
