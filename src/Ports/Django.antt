-- ===== src/Ports/Django.antt =====
-- The ports on Django, as app/interface/drf/dependencies.py injects them.
pub mod Laws
use fast_api_ddd_template.UnitOfWork.{user_repository}
use fast_api_ddd_template.DjangoOrm.UserRepo
use fast_api_ddd_template.DjangoOrm.UnitOfWork.{with_repo}
use fast_api_ddd_template.Ports.{Ports}

instance abbrev pub django_ports : Ports
django_ports = record {
  get_by_id = UserRepo.get_by_id;
  get_by_username = UserRepo.get_by_username;
  add = UserRepo.add;
  update = UserRepo.update;
  get_all = UserRepo.get_all;
  with_users = with_repo user_repository;
}
