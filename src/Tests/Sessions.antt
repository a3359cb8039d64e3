-- ===== src/Tests/Sessions.antt =====
-- Examples of sessions: their limit, refresh, logout and cleanup.
use fast_api_ddd_template.Base.{◌≤◌, ◌≡◌, ◌≢◌, refl, arith, eq_iff, some, []}
use fast_api_ddd_template.Domain.Errors.{ok, err, http_exception, not_authenticated_error}
use fast_api_ddd_template.Database.{SessionRow, Session, Db}
use fast_api_ddd_template.Database.SessionRepo.{
  Clocks, create, new_session, get_user_if_session_valid, get_user_valid_session_by_refresh_token,
  delete_expired,
}
use fast_api_ddd_template.Database.SessionRepo.Limit.{live_count, create-live_count}
use fast_api_ddd_template.Database.SessionRepo.Lookup.{delete_expired-lookup}
use fast_api_ddd_template.World.{World}
use fast_api_ddd_template.Auth.{current_user}
use fast_api_ddd_template.Http.Message.{Request, Reply, json, nothing}
use fast_api_ddd_template.Http.AuthRoutes.{refresh, logout, token_reply}
use fast_api_ddd_template.Domain.Values.{role_text}
use fast_api_ddd_template.Auth.Sound.{is_live_session, current_user_sound}
use fast_api_ddd_template.Database.SessionRepo.Order.{NotAfter, excess-NotAfter}
use fast_api_ddd_template.Database.SessionRepo.{live_of, order_desc, excess}
use fast_api_ddd_template.Base.{true, exists, count_where, where_, take}
use fast_api_ddd_template.Base.{str_eq}
use fast_api_ddd_template.Domain.Uuid.{uuid_text}
use fast_api_ddd_template.Database.{UserRow}
use fast_api_ddd_template.Database.UserRepo.{by_username}
use fast_api_ddd_template.Database.UserRepo.Keeps.{read}
use fast_api_ddd_template.Application.Credentials.{Returning}
use fast_api_ddd_template.Auth.Accepts.{payload_for}
use fast_api_ddd_template.Http.AuthRoutes.{login, issue_access}
use fast_api_ddd_template.Http.Login.{login-current_user}
use fast_api_ddd_template.Tests.Data.{root_user, verify}
use fast_api_ddd_template.Http.Refresh.{refresh-single_use}
use fast_api_ddd_template.Http.Logout.{logout-current_user}
use fast_api_ddd_template.Tests.Data.{
  two_accounts-IsConsistent, world, start, clocks, settings, jwt, service, sha256, draws,
  root_payload, root_request,
}

-- A second login of the administrator, at a limit of one session.
abbrev after_login : Session
after_login = (create clocks 11 1 60 1 "h:new" start).1

logs_in :
    create clocks 11 1 60 1 "h:new" start ≡ (ok (new_session clocks 11 1 60 "h:new"), after_login)
unfolding create fast_api_ddd_template.Database.Schema.insert_session
logs_in = refl

create-live_count_example : live_count clocks.db_now 1 after_login.db.sessions ≤ 1
create-live_count_example =
    create-live_count clocks 11 1 60 1 "h:new" start after_login
      (new_session clocks 11 1 60 "h:new") logs_in

abbrev after_refresh : World
after_refresh = (refresh settings jwt service sha256 draws "old" world).1

abbrev refreshed : Reply
refreshed = token_reply settings jwt service sha256 draws "root-token"

refreshes : refresh settings jwt service sha256 draws "old" world ≡ (ok refreshed, after_refresh)
unfolding refresh fast_api_ddd_template.UnitOfWork.with_repo_logging
    get_user_valid_session_by_refresh_token
    fast_api_ddd_template.Database.SessionRepo.rotate_refresh_token
    fast_api_ddd_template.Database.Schema.update_session fast_api_ddd_template.Security.Jwt.issue
refreshes = refl

other_hash : sha256 draws.refresh_token ≢ sha256 "old"
other_hash e = absurd (ground (arith, (eq_iff "h:new" "h:old").1 e))

refresh-single_use_example :
    ((refresh settings jwt service sha256 draws "old" after_refresh).0
      ≡ err (http_exception 401 "Not authorized." []))
    × ((refresh settings jwt service sha256 draws "old" after_refresh).1.db ≡ after_refresh.db)
refresh-single_use_example =
    refresh-single_use settings jwt service sha256 draws draws "old" world after_refresh refreshed
      two_accounts-IsConsistent other_hash refreshes

abbrev leaving : Request
leaving = record root_request { path = "/auth/logout"; auth_payload = some root_payload }

abbrev after_logout : World
after_logout = (logout clocks leaving world).1

logs_out : logout clocks leaving world ≡ (ok (json 204 nothing), after_logout)
unfolding logout fast_api_ddd_template.UnitOfWork.with_repo
    fast_api_ddd_template.Database.SessionRepo.revoke
    fast_api_ddd_template.Database.Schema.update_session
logs_out = refl

logout-current_user_example :
    (current_user clocks root_payload after_logout).0
    ≡ err (not_authenticated_error "Not authorized.")
logout-current_user_example =
    logout-current_user clocks clocks leaving root_payload root_payload world after_logout
      (json 204 nothing) two_accounts-IsConsistent refl refl logs_out

delete_expired-lookup_example :
    ((get_user_if_session_valid clocks 1 10 (delete_expired clocks start).1).0
      ≡ (get_user_if_session_valid clocks 1 10 start).0)
    × ((get_user_valid_session_by_refresh_token clocks "h:old" (delete_expired clocks start).1).0
        ≡ (get_user_valid_session_by_refresh_token clocks "h:old" start).0)
delete_expired-lookup_example = delete_expired-lookup clocks clocks 1 10 "h:old" start (omega arith)

accepts : current_user clocks root_payload world ≡ (ok root_user, world)
unfolding current_user fast_api_ddd_template.UnitOfWork.with_repo get_user_if_session_valid
    fast_api_ddd_template.Database.Mapping.to_domain
    fast_api_ddd_template.Domain.Values.new_username
    fast_api_ddd_template.Domain.Values.new_password_hash
accepts = refl

current_user_sound_example :
    (root_user.id.value ≡ root_payload.user_id)
    × (root_user.is_active ≡ true)
    × (role_text root_user.role ≡ root_payload.role)
    × (exists
          (is_live_session clocks.db_now root_payload.user_id root_payload.session_id)
          world.db.sessions
        ≡ true)
    × (world.db ≡ world.db)
current_user_sound_example =
    current_user_sound clocks root_payload world root_user world two_accounts-IsConsistent accepts

excess-NotAfter_example :
    (count_where
        (live_of 1000000 1)
        (order_desc (where_ (live_of 1000000 1) after_login.db.sessions))
      ≡ count_where (live_of 1000000 1) (where_ (live_of 1000000 1) after_login.db.sessions))
    × NotAfter
        (excess 1000000 1 1 after_login.db.sessions)
        (take 1 (order_desc (where_ (live_of 1000000 1) after_login.db.sessions)))
excess-NotAfter_example = excess-NotAfter 1000000 1 1 after_login.db.sessions (live_of 1000000 1)

verify-returns : Returning verify
verify-returns raw h = (str_eq raw.value "correct horse", refl)

abbrev after_root_login : World
after_root_login =
    (login settings jwt service sha256 draws verify "root_admin" "correct horse" world).1

logs_root_in :
    login settings jwt service sha256 draws verify "root_admin" "correct horse" world
    ≡ (ok (token_reply settings jwt service sha256 draws "root-token"), after_root_login)
unfolding login fast_api_ddd_template.Application.AuthenticateUser.authenticate_user
    fast_api_ddd_template.Application.AuthenticateUser.find_account
    fast_api_ddd_template.Application.AuthenticateUser.check_account
    fast_api_ddd_template.Database.UserRepo.get_by_username
    fast_api_ddd_template.Database.Mapping.to_domain
    fast_api_ddd_template.Domain.Values.new_username
    fast_api_ddd_template.Domain.Values.new_raw_password
    fast_api_ddd_template.Domain.Values.new_password_hash fast_api_ddd_template.UnitOfWork.with_repo
    create fast_api_ddd_template.Database.Schema.insert_session
    fast_api_ddd_template.Domain.Uuid.uuid_text fast_api_ddd_template.Domain.Uuid.parse_uuid
    fast_api_ddd_template.Security.Jwt.issue
logs_root_in = refl

login-current_user_example :
    (r : UserRow) × (by_username "root_admin" world.db ≡ some r)
    × (r.is_active ≡ true)
    × (token_reply settings jwt service sha256 draws "root-token"
        ≡ token_reply settings jwt service sha256 draws (
            issue_access settings jwt service sha256 draws
              (uuid_text r.id)
              (role_text r.role)
              draws.session_id))
    × (current_user clocks (payload_for r draws.session_id) after_root_login
        ≡ (ok (read r), after_root_login))
login-current_user_example =
    login-current_user settings jwt service sha256 draws verify "root_admin" "correct horse" clocks
      world after_root_login (token_reply settings jwt service sha256 draws "root-token")
      verify-returns (omega arith, (omega arith, tt)) two_accounts-IsConsistent (omega arith)
      logs_root_in
