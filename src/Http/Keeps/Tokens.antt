-- ===== src/Http/Keeps/Tokens.antt =====
-- The invariant of the tables under `refresh` and `logout` of routes/auth.py.
use fast_api_ddd_template.Base.{◌≡◌, refl, arith, Option, none, some, [], String}
use fast_api_ddd_template.Domain.Errors.{http_exception}
use fast_api_ddd_template.Domain.Uuid.{uuid_text}
use fast_api_ddd_template.Database
use fast_api_ddd_template.Database.{Query, Db, Session, SessionRow, UserRow}
use fast_api_ddd_template.Database.Invariant.{IsConsistent, IsOwned}
use fast_api_ddd_template.Database.Ensures.{
  Returns, Anything, Ensures, Ensures-pure, Ensures-read, bind-at,
}
use fast_api_ddd_template.Database.SessionRepo.{
  Clocks, revoke, join_by_hash, rotate_refresh_token, get_user_valid_session_by_refresh_token,
}
use fast_api_ddd_template.Database.SessionRepo.Keeps.{
  revoke-Ensures, join_by_hash-IsJoined, rewrite_one-at,
}
use fast_api_ddd_template.World.{World, Event}
use fast_api_ddd_template.World.Preserves.{Preserves, Returns-Anything}
use fast_api_ddd_template.UnitOfWork.{user_session_repo}
use fast_api_ddd_template.UnitOfWork.Preserves.{with_repo-Preserves, with_repo_logging-Preserves}
use fast_api_ddd_template.Auth.{AuthPayload}
use fast_api_ddd_template.Http.Message.{Request}
use fast_api_ddd_template.Http.AuthRoutes.{Settings, Draws, rotate, refresh, logout}
use fast_api_ddd_template.Security.Jwt.{PyJwt, JwtTokenService}

-- What `refresh` does once it has looked for the session.
abbrev rotate_found :
    Settings
    → (String → String)
    → Draws
    → Option (UserRow × SessionRow)
    → Query (UserRow × SessionRow)
rotate_found cfg sha256 draws none = Database.raise (http_exception 401 "Not authorized." [])
rotate_found cfg sha256 draws (some (u, s)) =
    Database.◌>>◌
      (rotate_refresh_token draws.clocks s (sha256 draws.refresh_token) cfg.session_expiry_time)
      (Database.pure (u, s))

rotate_found-at :
    (cfg : Settings) (sha256 : String → String) (draws : Draws) (hash : String) (s : Session)
    (o : Option (UserRow × SessionRow))
    → IsConsistent s.db
    → join_by_hash draws.clocks.db_now hash s.db.users s.db.sessions ≡ o
    → IsConsistent (rotate_found cfg sha256 draws o s).1.db
      × Returns Anything (rotate_found cfg sha256 draws o s).0
unfolding rotate_refresh_token
rotate_found-at cfg sha256 draws hash s none h e = (h, tt)
rotate_found-at cfg sha256 draws hash s (some (u, r)) h e =
    let j = join_by_hash-IsJoined draws.clocks.db_now hash s.db.users s.db.sessions u r e in
    bind-at {P = Anything}
      (rotate_refresh_token draws.clocks r (sha256 draws.refresh_token) cfg.session_expiry_time)
      (λ _. Database.pure (u, r)) s
      (rewrite_one-at _ s h (j.in_sessions (IsOwned s.db.users) h.sessions_owned))
      (λ _ _. Ensures-pure (u, r) tt)

rotate-Ensures :
    (cfg : Settings) (sha256 : String → String) (draws : Draws) (refresh_token : String)
    → Ensures Anything (rotate cfg sha256 draws refresh_token)
unfolding rotate get_user_valid_session_by_refresh_token
rotate-Ensures cfg sha256 draws refresh_token =
    Ensures-read
      (λ (db : Db). join_by_hash draws.clocks.db_now (sha256 refresh_token) db.users db.sessions)
      (rotate_found cfg sha256 draws) (rotate_found-at cfg sha256 draws (sha256 refresh_token))

pub refresh-Preserves :
    (cfg : Settings) (jwt : PyJwt) (service : JwtTokenService) (sha256 : String → String)
    (draws : Draws) (refresh_token : String)
    → Preserves Anything (refresh cfg jwt service sha256 draws refresh_token)
unfolding refresh
refresh-Preserves cfg jwt service sha256 draws refresh_token = record {
  at = λ w h. (
    ground (
      arith,
      ((with_repo_logging-Preserves user_session_repo (rotate cfg sha256 draws refresh_token)
            (λ (u, s). Event.token_refresh (uuid_text u.id) (uuid_text s.id)) tt
            (rotate-Ensures cfg sha256 draws refresh_token)).at
          w h).0,
    ),
    Returns-Anything _,
  );
}

pub logout-Preserves : (c : Clocks) (request : Request) → Preserves Anything (logout c request)
unfolding logout
logout-Preserves c request = record {
  at = λ w h. (keeps w h request.auth_payload refl, Returns-Anything _);
}
  where
    keeps :
        (w : World)
        → IsConsistent w.db
        → (o : Option AuthPayload) → request.auth_payload ≡ o
        → IsConsistent (logout c request w).1.db
    keeps w h (some auth) e = ground (
      arith,
      e,
      ((with_repo-Preserves user_session_repo (revoke c auth.session_id) tt
            (revoke-Ensures c auth.session_id)).at
          w h).0,
    )
    keeps w h none e = ground (arith, e)
