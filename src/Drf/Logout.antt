-- ===== src/Drf/Logout.antt =====
-- POST /auth/logout on the Django stack.
use fast_api_ddd_template.Base.{
  ◌≡◌, refl, arith, Bool, false, Option, none, some, ◌∙◌, sym, ap, subst, Bool-cases, inl, inr, ℕ,
}
use fast_api_ddd_template.Domain.Errors.{Result, ok, err, not_authenticated_error}
use fast_api_ddd_template.Database.{SessionRow, Session, Db}
use fast_api_ddd_template.Database.Invariant.{IsConsistent}
use fast_api_ddd_template.Database.Schema.{update_session}
use fast_api_ddd_template.Database.SessionRepo as SqlSessions
use fast_api_ddd_template.Database.SessionRepo.{Clocks, session_by_id, is_some}
use fast_api_ddd_template.Database.SessionRepo.Keeps.{revoke-Ensures}
use fast_api_ddd_template.World.{World}
use fast_api_ddd_template.UnitOfWork as SqlUow
use fast_api_ddd_template.UnitOfWork.{Interface, user_session_repo}
use fast_api_ddd_template.UnitOfWork.Atomic.{with_repo-atomic}
use fast_api_ddd_template.Auth.{AuthPayload}
use fast_api_ddd_template.DjangoOrm.Auth.{current_user}
use fast_api_ddd_template.DjangoOrm.Auth.Agrees.{current_user-agrees}
use fast_api_ddd_template.DjangoOrm.UnitOfWork as DjangoUow
use fast_api_ddd_template.DjangoOrm.UnitOfWork.Atomic.{with_repo-atomic_block, no_orphan}
use fast_api_ddd_template.DjangoOrm.SessionRepo as DjangoSessions
use fast_api_ddd_template.DjangoOrm.SessionRepo.Owners.{on_app_clock}
use fast_api_ddd_template.DjangoOrm.SessionRepo.Agrees.{revoke-agree}
use fast_api_ddd_template.Http.Message.{Request, Reply}
use fast_api_ddd_template.Http.AuthRoutes as Http
use fast_api_ddd_template.Http.Logout.{logout-current_user}
use fast_api_ddd_template.Drf.AuthViews as Drf
use fast_api_ddd_template.Drf.Keeps.Tokens.{logout-Preserves}

-- Where `revoke` returns, no flush has failed.
revoke-failed :
    (c : Clocks) (i : ℕ) (s s' : Session) (b : Bool)
    → SqlSessions.revoke c i s ≡ (ok b, s')
    → s'.failed ≡ s.failed
unfolding SqlSessions.revoke
revoke-failed c i s s' b h = looked (session_by_id i s.db) refl
  where
    written :
        (r : SessionRow)
        → session_by_id i s.db ≡ some r
        → is_some r.revoked_at ≡ false
        → (x : Result Db) → update_session (record r { revoked_at = some c.now }) s.db ≡ x
        → s'.failed ≡ s.failed
    written r e t (ok db) f = ground (arith, h, e, t, f)
    written r e t (err x) f = ground (arith, h, e, t, f)

    looked : (o : Option SessionRow) → session_by_id i s.db ≡ o → s'.failed ≡ s.failed
    looked none e = ground (arith, h, e)
    looked (some r) e = elim (Bool-cases (is_some r.revoked_at)) [
      | inl t ↦ ground (arith, h, e, t)
      | inr t ↦ written r e t (update_session (record r { revoked_at = some c.now }) s.db) refl
    ]

-- The unit of work around `revoke` does the same on the two stacks.
revoke-with_repo :
    (c : Clocks) (i : ℕ) (w : World)
    → IsConsistent w.db
    → DjangoUow.with_repo user_session_repo (DjangoSessions.revoke c i) w
      ≡ SqlUow.with_repo user_session_repo (SqlSessions.revoke (on_app_clock c) i) w
revoke-with_repo c i w h = go (SqlSessions.revoke (on_app_clock c) i start) refl
  where
    start : Session
    start = record { db = w.db; failed = false }

    go :
        (p : Result Bool × Session)
        → SqlSessions.revoke (on_app_clock c) i start ≡ p
        → DjangoUow.with_repo user_session_repo (DjangoSessions.revoke c i) w
          ≡ SqlUow.with_repo user_session_repo (SqlSessions.revoke (on_app_clock c) i) w
    go (ok b, s') e =
        let q = revoke-agree c i start h in
        let k : IsConsistent s'.db =
          subst (λ (p : Result Bool × Session). IsConsistent p.1.db) e
            ((revoke-Ensures (on_app_clock c) i).at start h).0 in
        let f = revoke-failed (on_app_clock c) i start s' b e in
        with_repo-atomic_block user_session_repo (DjangoSessions.revoke c i) w tt
        ∙ ground (arith, e, q, f, no_orphan s'.db s'.db.sessions k.sessions_owned)
        ∙ sym (with_repo-atomic user_session_repo (SqlSessions.revoke (on_app_clock c) i) w tt)
    go (err x, s') e =
        let q = revoke-agree c i start h in
        with_repo-atomic_block user_session_repo (DjangoSessions.revoke c i) w tt
        ∙ ground (arith, e, q)
        ∙ sym (with_repo-atomic user_session_repo (SqlSessions.revoke (on_app_clock c) i) w tt)

-- On consistent tables, whatever the request, `LogoutView` does what the handler of FastAPI does
-- where the clock of the database shows the application's time: it answers or raises the same, and
-- leaves the same world.
pub logout-agrees :
    (c : Clocks) (request : Request) (w : World)
    → IsConsistent w.db
    → Drf.logout c request w ≡ Http.logout (on_app_clock c) request w
unfolding Drf.logout Http.logout
logout-agrees c request w h = go request.auth_payload refl
  where
    go :
        (o : Option AuthPayload)
        → request.auth_payload ≡ o
        → Drf.logout c request w ≡ Http.logout (on_app_clock c) request w
    go none e = ground (arith, e)
    go (some p) e = ground (arith, e, revoke-with_repo c p.session_id w h)

-- On consistent tables, once `LogoutView` has answered a request whose token names a session, the
-- authentication service of Django refuses every token of that session, whatever its user, its role
-- and the time.
pub logout-locks_out :
    (c later : Clocks) (request : Request) (auth payload : AuthPayload) (w w' : World)
    (reply : Reply)
    → IsConsistent w.db
    → request.auth_payload ≡ some auth
    → payload.session_id ≡ auth.session_id
    → Drf.logout c request w ≡ (ok reply, w')
    → (current_user later payload w').0 ≡ err (not_authenticated_error "Not authorized.")
logout-locks_out c later request auth payload w w' reply k a i h =
    let same = sym (logout-agrees c request w k) ∙ h in
    let k' : IsConsistent w'.db =
      subst (λ (p : Result Reply × World). IsConsistent p.1.db) h
        ((logout-Preserves c request).at w k).0 in
    let refused =
      logout-current_user (on_app_clock c) (on_app_clock later) request auth payload w w' reply k a
        i same in
    ap (λ (p : Result _ × World). p.0) (current_user-agrees later payload w' k') ∙ refused
