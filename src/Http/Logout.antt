-- ===== src/Http/Logout.antt =====
-- The end of a session.
use fast_api_ddd_template.Base.{◌≡◌, refl, arith, Bool, false, some}
use fast_api_ddd_template.Domain.Errors.{Result, ok, err, not_authenticated_error}
use fast_api_ddd_template.Database.{Session}
use fast_api_ddd_template.Database.Invariant.{IsConsistent}
use fast_api_ddd_template.Database.SessionRepo.{Clocks, revoke}
use fast_api_ddd_template.Database.SessionRepo.Lookup.{IsRevoked, revoke-IsRevoked}
use fast_api_ddd_template.World.{World}
use fast_api_ddd_template.UnitOfWork.{user_session_repo}
use fast_api_ddd_template.UnitOfWork.Atomic.{with_repo-atomic}
use fast_api_ddd_template.Auth.{AuthPayload, current_user}
use fast_api_ddd_template.Auth.Lockout.{current_user-IsRevoked}
use fast_api_ddd_template.Http.Message.{Request, Reply}
use fast_api_ddd_template.Http.AuthRoutes.{logout}

-- On consistent tables, once `logout` has answered a request whose token names a session, the
-- authentication service refuses every token of that session, whatever its user, its role and
-- the time.
pub logout-current_user :
    (c later : Clocks) (request : Request) (auth payload : AuthPayload) (w w' : World)
    (reply : Reply)
    → IsConsistent w.db
    → request.auth_payload ≡ some auth
    → payload.session_id ≡ auth.session_id
    → logout c request w ≡ (ok reply, w')
    → (current_user later payload w').0 ≡ err (not_authenticated_error "Not authorized.")
unfolding logout
logout-current_user c later request auth payload w w' reply k a i h =
    current_user-IsRevoked later payload w' (rw i (revoked (revoke c auth.session_id start) refl))
  where
    start : Session
    start = record { db = w.db; failed = false }

    revoked :
        (x : Result Bool × Session)
        → revoke c auth.session_id start ≡ x
        → IsRevoked auth.session_id w'.db.sessions
    revoked (ok b, s') e =
        let q = with_repo-atomic user_session_repo (revoke c auth.session_id) w tt in
        let d : w'.db ≡ s'.db = ground (arith, h, a, e, q) in
        rw d (revoke-IsRevoked c auth.session_id start s' b k e)
    revoked (err x, s') e = absurd (
        ground (arith, h, a, e, with_repo-atomic user_session_repo (revoke c auth.session_id) w tt))
