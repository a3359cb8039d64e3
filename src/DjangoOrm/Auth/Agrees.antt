-- ===== src/DjangoOrm/Auth/Agrees.antt =====
-- `TokenSessionAuthServiceDjango` against `TokenSessionAuthService`, and what follows for it.
use fast_api_ddd_template.Base.{◌≡◌, refl, arith, true, false, exists, ◌∙◌, sym}
use fast_api_ddd_template.Domain.Errors.{ok}
use fast_api_ddd_template.Domain.Values.{role_text}
use fast_api_ddd_template.Domain.User.{User}
use fast_api_ddd_template.Database.{Session, Query}
use fast_api_ddd_template.Database.Invariant.{IsConsistent}
use fast_api_ddd_template.Database.SessionRepo as SqlSessions
use fast_api_ddd_template.Database.SessionRepo.{Clocks}
use fast_api_ddd_template.World.{World}
use fast_api_ddd_template.UnitOfWork as SqlUow
use fast_api_ddd_template.UnitOfWork.{Interface, user_session_repo}
use fast_api_ddd_template.UnitOfWork.Atomic.{IsRegistered, with_repo-atomic}
use fast_api_ddd_template.Auth as Sql
use fast_api_ddd_template.Auth.{AuthPayload}
use fast_api_ddd_template.Auth.Sound.{is_live_session, current_user_sound}
use fast_api_ddd_template.DjangoOrm.UnitOfWork as DjangoUow
use fast_api_ddd_template.DjangoOrm.UnitOfWork.Atomic.{with_repo-atomic_block, no_orphan}
use fast_api_ddd_template.DjangoOrm.SessionRepo as DjangoSessions
use fast_api_ddd_template.DjangoOrm.SessionRepo.Owners.{
  on_app_clock, get_user_if_session_valid-agree,
}
use fast_api_ddd_template.DjangoOrm.Auth as Django

-- Units of work whose bodies return the same and change nothing do the same on the two stacks.
pub with_repo-agree :
    {A : Type 0} (iface : Interface) (q k : Query A) (a : A) (w : World)
    → IsRegistered iface
    → IsConsistent w.db
    → k (record { db = w.db; failed = false }) ≡ (ok a, record { db = w.db; failed = false })
    → q (record { db = w.db; failed = false }) ≡ k (record { db = w.db; failed = false })
    → DjangoUow.with_repo iface q w ≡ SqlUow.with_repo iface k w
with_repo-agree iface q k a w i h e f =
    with_repo-atomic_block iface q w i
    ∙ (ground (arith, e, f, no_orphan w.db w.db.sessions h.sessions_owned))
    ∙ sym (with_repo-atomic iface k w i)

-- On consistent tables `TokenSessionAuthServiceDjango` does with a token what
-- `TokenSessionAuthService` does where the clock of the database shows the application's time.
pub current_user-agrees :
    (c : Clocks) (payload : AuthPayload) (w : World)
    → IsConsistent w.db
    → Django.current_user c payload w ≡ Sql.current_user (on_app_clock c) payload w
unfolding Django.current_user Sql.current_user SqlSessions.get_user_if_session_valid
current_user-agrees c payload w h =
    let start : Session = record { db = w.db; failed = false } in
    let a =
      with_repo-agree user_session_repo
        (DjangoSessions.get_user_if_session_valid c payload.user_id payload.session_id)
        (SqlSessions.get_user_if_session_valid (on_app_clock c) payload.user_id payload.session_id)
        _ w tt h refl
        (get_user_if_session_valid-agree c payload.user_id payload.session_id start h) in
    ground (arith, a)

-- So a token that it accepts is for an active user of its user id whose present role is the role
-- of the token, and who has a session of the session id of the token that is neither revoked nor
-- expired by the clock of the application; no table changes.
pub current_user_accepted :
    (c : Clocks) (payload : AuthPayload) (w : World) (u : User) (v : World)
    → IsConsistent w.db
    → Django.current_user c payload w ≡ (ok u, v)
    → (u.id.value ≡ payload.user_id)
      × (u.is_active ≡ true)
      × (role_text u.role ≡ payload.role)
      × (exists (is_live_session c.now payload.user_id payload.session_id) w.db.sessions ≡ true)
      × (v.db ≡ w.db)
current_user_accepted c payload w u v h e =
    current_user_sound (on_app_clock c) payload w u v h
      (sym (current_user-agrees c payload w h) ∙ e)
