-- ===== src/Ports/Django/Laws.antt =====
-- The ports on Django are lawful.
use fast_api_ddd_template.DjangoOrm.UserRepo.Keeps.{
  get_by_id_keeps, get_by_username_keeps, add_keeps, update_keeps, get_all_keeps,
}
use fast_api_ddd_template.UnitOfWork.{user_repository}
use fast_api_ddd_template.DjangoOrm.UnitOfWork.Preserves.{with_repo-Preserves}
use fast_api_ddd_template.Ports.Laws.{IsLawful}
use fast_api_ddd_template.Ports.Django.{django_ports}

instance pub django_laws : IsLawful django_ports
django_laws = record {
  get_by_id_ensures = get_by_id_keeps;
  get_by_username_ensures = get_by_username_keeps;
  add_ensures = add_keeps;
  update_ensures = update_keeps;
  get_all_ensures = get_all_keeps;
  with_users_preserves = λ q k. with_repo-Preserves user_repository q tt k;
}
