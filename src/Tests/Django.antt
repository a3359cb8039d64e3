-- ===== src/Tests/Django.antt =====
-- Examples of the adapters of the Django stack.
use fast_api_ddd_template.Base.{◌≤◌, ◌≡◌, refl}
use fast_api_ddd_template.Domain.Errors.{ok}
use fast_api_ddd_template.Database.{Session}
use fast_api_ddd_template.Database.UserRepo as Sql
use fast_api_ddd_template.Database.SessionRepo as SqlSessions
use fast_api_ddd_template.Database.SessionRepo.{new_session}
use fast_api_ddd_template.UnitOfWork.{user_repository}
use fast_api_ddd_template.DjangoOrm.UserRepo as Django
use fast_api_ddd_template.DjangoOrm.UserRepo.Agrees.{Agree, user_repository-agrees}
use fast_api_ddd_template.DjangoOrm.SessionRepo as DjangoSessions
use fast_api_ddd_template.DjangoOrm.SessionRepo.Owners.{on_app_clock}
use fast_api_ddd_template.DjangoOrm.SessionRepo.Agrees.{session_repository-agrees}
use fast_api_ddd_template.DjangoOrm.SessionRepo.Limit.{unrevoked_count, create-unrevoked_count}
use fast_api_ddd_template.DjangoOrm.UnitOfWork.{with_repo}
use fast_api_ddd_template.DjangoOrm.UnitOfWork.Atomic.{atomic, with_repo-atomic_block}
use fast_api_ddd_template.Tests.Data.{
  root_user, mary_user, root_session, world, start, clocks, two_accounts-IsConsistent,
}

-- An insert that the primary key refuses.
with_repo-atomic_block_example :
    with_repo user_repository (Django.add root_user) world ≡ atomic (Django.add root_user) world
with_repo-atomic_block_example =
    with_repo-atomic_block user_repository (Django.add root_user) world tt

user_repository-agrees_example :
    Agree start (Django.get_by_id root_user.id) (Sql.get_by_id root_user.id)
    × Agree start
        (Django.get_by_username mary_user.username)
        (Sql.get_by_username mary_user.username)
    × Agree start (Django.add mary_user) (Sql.add mary_user)
    × Agree start (Django.update mary_user) (Sql.update mary_user)
    × Agree start Django.get_all Sql.get_all
user_repository-agrees_example =
    user_repository-agrees start root_user.id mary_user.username mary_user two_accounts-IsConsistent

session_repository-agrees_example :
    Agree start
      (DjangoSessions.get_user_if_session_valid clocks 1 10)
      (SqlSessions.get_user_if_session_valid (on_app_clock clocks) 1 10)
    × Agree start (DjangoSessions.get_session_by_id 10) (SqlSessions.get_session_by_id 10)
    × Agree start
        (DjangoSessions.get_user_valid_session_by_refresh_token clocks "h:old")
        (SqlSessions.get_user_valid_session_by_refresh_token (on_app_clock clocks) "h:old")
    × Agree start
        (DjangoSessions.rotate_refresh_token clocks root_session "h:old" 60)
        (SqlSessions.rotate_refresh_token (on_app_clock clocks) root_session "h:old" 60)
    × Agree start (DjangoSessions.revoke clocks 10) (SqlSessions.revoke (on_app_clock clocks) 10)
    × Agree start
        (DjangoSessions.revoke_by_refresh_token clocks "h:old")
        (SqlSessions.revoke_by_refresh_token (on_app_clock clocks) "h:old")
    × Agree start
        (DjangoSessions.delete_expired clocks)
        (SqlSessions.delete_expired (on_app_clock clocks))
session_repository-agrees_example =
    session_repository-agrees clocks start 1 10 "h:old" root_session 60 two_accounts-IsConsistent
      refl

-- A second login of the administrator, at a limit of one session.
abbrev after_login : Session
after_login = (DjangoSessions.create clocks 11 1 60 1 "h:new" start).1

logs_in :
    DjangoSessions.create clocks 11 1 60 1 "h:new" start
    ≡ (ok (new_session clocks 11 1 60 "h:new"), after_login)
unfolding DjangoSessions.create
logs_in = refl

create-unrevoked_count_example : unrevoked_count 1 after_login.db.sessions ≤ 1
create-unrevoked_count_example =
    create-unrevoked_count clocks 11 1 60 1 "h:new" start after_login
      (new_session clocks 11 1 60 "h:new") logs_in
