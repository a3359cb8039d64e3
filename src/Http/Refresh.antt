-- ===== src/Http/Refresh.antt =====
-- The route `refresh` of routes/auth.py, called again with the same token.
use fast_api_ddd_template.Base.{◌+◌, ◌≡◌, ◌≢◌, refl, arith, false, Option, none, some, [], String}
use fast_api_ddd_template.Domain.Errors.{Error, Result, ok, err, http_exception}
use fast_api_ddd_template.Domain.Uuid.{uuid_text}
use fast_api_ddd_template.Database.{UserRow, SessionRow, Db, Session}
use fast_api_ddd_template.Database.Schema.{update_session}
use fast_api_ddd_template.Database.Invariant.{IsConsistent}
use fast_api_ddd_template.Database.Invariant.SessionWrites.{update_session-ok}
use fast_api_ddd_template.Database.SessionRepo.{
  minutes, join_by_hash, get_user_valid_session_by_refresh_token, rotate_refresh_token,
}
use fast_api_ddd_template.Database.SessionRepo.Rotation.{
  has_hash, has_hash-update, join_by_hash-none, join_by_hash_unique,
}
use fast_api_ddd_template.World.{World, Event}
use fast_api_ddd_template.UnitOfWork.{user_session_repo}
use fast_api_ddd_template.UnitOfWork.Atomic.{with_repo_logging-atomic}
use fast_api_ddd_template.Security.Jwt.{PyJwt, JwtTokenService}
use fast_api_ddd_template.Http.Message.{Reply}
use fast_api_ddd_template.Http.AuthRoutes.{Settings, Draws, rotate, refresh}

abbrev refused : Error
refused = http_exception 401 "Not authorized." []

-- The record that a refresh logs.
abbrev refresh_event : UserRow × SessionRow → Event
refresh_event (u, s) = Event.token_refresh (uuid_text u.id) (uuid_text s.id)

-- The session as the rotation writes it.
abbrev rotated : Settings → (String → String) → Draws → SessionRow → SessionRow
rotated cfg sha256 draws r = record r {
  refresh_token_hash = sha256 draws.refresh_token;
  expires_at = minutes cfg.session_expiry_time + draws.clocks.now;
}

module _ (cfg : Settings) (sha256 : String → String) (draws : Draws) where
  -- How a rotation returns.
  rotate-ok :
      (token : String) (s s' : Session) (u : UserRow) (r : SessionRow)
      → rotate cfg sha256 draws token s ≡ (ok (u, r), s')
      → (join_by_hash draws.clocks.db_now (sha256 token) s.db.users s.db.sessions ≡ some (u, r))
        × (update_session (rotated cfg sha256 draws r) s.db ≡ ok s'.db)
  unfolding rotate rotate_refresh_token get_user_valid_session_by_refresh_token
  rotate-ok token s s' u r h =
      found (join_by_hash draws.clocks.db_now (sha256 token) s.db.users s.db.sessions) refl
    where
      found :
          (o : Option (UserRow × SessionRow))
          → join_by_hash draws.clocks.db_now (sha256 token) s.db.users s.db.sessions ≡ o
          → (join_by_hash draws.clocks.db_now (sha256 token) s.db.users s.db.sessions ≡ some (u, r))
            × (update_session (rotated cfg sha256 draws r) s.db ≡ ok s'.db)
      found none e = ground (arith, h, e)
      found (some (u', r')) e = written (update_session (rotated cfg sha256 draws r') s.db) refl
        where
          written :
              (w : Result Db)
              → update_session (rotated cfg sha256 draws r') s.db ≡ w
              → (join_by_hash draws.clocks.db_now (sha256 token) s.db.users s.db.sessions
                  ≡ some (u, r))
                × (update_session (rotated cfg sha256 draws r) s.db ≡ ok s'.db)
          written (ok db) f = ground (arith, h, e, f)
          written (err x) f = ground (arith, h, e, f)

  -- After a rotation to another hash, no session has the old one.
  rotate-has_hash :
      (token : String) (s s' : Session) (u : UserRow) (r : SessionRow)
      → IsConsistent s.db
      → sha256 draws.refresh_token ≢ sha256 token
      → rotate cfg sha256 draws token s ≡ (ok (u, r), s')
      → has_hash (sha256 token) s'.db.sessions ≡ false
  rotate-has_hash token s s' u r k n h =
      let f = rotate-ok token s s' u r h in
      let only =
        join_by_hash_unique draws.clocks.db_now (sha256 token) s.db.users s.db.sessions u r
          k.sessions_keyed f.0 in
      rw ((update_session-ok (rotated cfg sha256 draws r) s.db f.1).1)
        (has_hash-update (rotated cfg sha256 draws r) (sha256 token) s.db.sessions n only)

module _ (cfg : Settings) (jwt : PyJwt) (service : JwtTokenService) (sha256 : String → String)
    (draws : Draws) where
  -- How `refresh` returns.
  refresh-ok :
      (token : String) (w w' : World) (reply : Reply)
      → refresh cfg jwt service sha256 draws token w ≡ (ok reply, w')
      → (u : UserRow) × (r : SessionRow) × (s' : Session) × (rotate cfg sha256 draws token
            (record { db = w.db; failed = false })
          ≡ (ok (u, r), s'))
        × (w'.db ≡ s'.db)
  unfolding refresh
  refresh-ok token w w' reply h = go (rotate cfg sha256 draws token start) refl
    where
      start : Session
      start = record { db = w.db; failed = false }

      go :
          (x : Result (UserRow × SessionRow) × Session)
          → rotate cfg sha256 draws token start ≡ x
          → (u : UserRow) × (r : SessionRow) × (s' : Session) × (rotate cfg sha256 draws token start
              ≡ (ok (u, r), s'))
            × (w'.db ≡ s'.db)
      go (ok (u, r), s') e = (
        u,
        r,
        s',
        e,
        ground (
          arith,
          h,
          e,
          with_repo_logging-atomic user_session_repo (rotate cfg sha256 draws token) refresh_event w
              tt,
        ),
      )
      go (err x, s') e = absurd (
          ground (
            arith,
            h,
            e,
            with_repo_logging-atomic user_session_repo (rotate cfg sha256 draws token) refresh_event
                w tt,
          ))

  -- A token of whose hash there is no session is refused, and changes no table.
  refresh-refused :
      (token : String) (w : World)
      → has_hash (sha256 token) w.db.sessions ≡ false
      → ((refresh cfg jwt service sha256 draws token w).0 ≡ err refused)
        × ((refresh cfg jwt service sha256 draws token w).1.db ≡ w.db)
  unfolding refresh rotate get_user_valid_session_by_refresh_token
  refresh-refused token w h =
      let e = join_by_hash-none draws.clocks.db_now (sha256 token) w.db.users w.db.sessions h in
      let a =
        with_repo_logging-atomic user_session_repo (rotate cfg sha256 draws token) refresh_event w
          tt in
      (ground (arith, e, a), ground (arith, e, a))

-- A refresh token is good for one use. On consistent tables, once `refresh` has returned tokens for
-- it, and the new token does not have its SHA-256, a later `refresh` with the same token, at any
-- time and with any draws, raises 401 and changes no table.
pub refresh-single_use :
    (cfg : Settings) (jwt : PyJwt) (service : JwtTokenService) (sha256 : String → String)
    (draws later : Draws) (token : String) (w w' : World) (reply : Reply)
    → IsConsistent w.db
    → sha256 draws.refresh_token ≢ sha256 token
    → refresh cfg jwt service sha256 draws token w ≡ (ok reply, w')
    → ((refresh cfg jwt service sha256 later token w').0
        ≡ err (http_exception 401 "Not authorized." []))
      × ((refresh cfg jwt service sha256 later token w').1.db ≡ w'.db)
refresh-single_use cfg jwt service sha256 draws later token w w' reply k n h =
    let (u, r, s', e, q) = refresh-ok cfg jwt service sha256 draws token w w' reply h in
    let gone = rotate-has_hash cfg sha256 draws token _ s' u r k n e in
    refresh-refused cfg jwt service sha256 later token w' (rw q gone)
