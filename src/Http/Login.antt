-- ===== src/Http/Login.antt =====
-- POST /auth/login where it succeeds: the token that it issues is accepted.
use fast_api_ddd_template.Ports.Sql.{sql_ports}
use fast_api_ddd_template.Base.{
  ℕ, ◌+◌, ◌<◌, ◌^◌, ◌≡◌, refl, arith, Bool, true, false, Option, none, some, List, String, ◌==◌,
  first, exists, All, All-first, ap, sym, subst, ◌∙◌,
}
use fast_api_ddd_template.Domain.Errors.{Result, ok, err}
use fast_api_ddd_template.Domain.Uuid.{uuid_text, parse_uuid}
use fast_api_ddd_template.Domain.Uuid.RoundTrip.{parse_uuid-uuid_text}
use fast_api_ddd_template.Domain.Values.{UserRawPassword, UserPasswordHash, role_text}
use fast_api_ddd_template.Database
use fast_api_ddd_template.Database.{UserRow, SessionRow, Session, Db, Time, Query}
use fast_api_ddd_template.Database.Invariant.{IsConsistent}
use fast_api_ddd_template.Database.UserRepo.{by_username}
use fast_api_ddd_template.Database.UserRepo.Keeps.{read, first-IsReadable}
use fast_api_ddd_template.Database.SessionRepo.{Clocks, minutes}
use fast_api_ddd_template.World.{World}
use fast_api_ddd_template.UnitOfWork.{user_session_repo}
use fast_api_ddd_template.UnitOfWork.Atomic.{with_repo-atomic}
use fast_api_ddd_template.Security.Jwt.{PyJwt, JwtTokenService}
use fast_api_ddd_template.Application.Dto.{AuthRequestDto, AuthResponseDto}
use fast_api_ddd_template.Application.Presenter.{new_presenter}
use fast_api_ddd_template.Application.AuthenticateUser.{auth_output, authenticate_user}
use fast_api_ddd_template.Application.Credentials.{Returning, accepted, authenticate_user-accepted}
use fast_api_ddd_template.Auth.{current_user}
use fast_api_ddd_template.Auth.Sound.{is_live_session}
use fast_api_ddd_template.Auth.Accepts.{payload_for, current_user-accepts}
use fast_api_ddd_template.Http.Message.{Reply}
use fast_api_ddd_template.Http.AuthRoutes.{
  Settings, Draws, open_session, logged_in, login, issue_access, token_reply,
}
use fast_api_ddd_template.Auth.Opened.{by_id-first, create-live}

module _ (cfg : Settings) (jwt : PyJwt) (service : JwtTokenService) (sha256 : String → String)
    (draws : Draws) where
  -- The session that login opens for a user, in the unit of work over given tables.
  abbrev opens : ℕ → Db → Result SessionRow × Session
  opens i db = open_session cfg sha256 draws i (record { db = db; failed = false })

  abbrev identified : AuthResponseDto → Query SessionRow
  identified d =
      Database.◌>>=◌ (Database.lift (parse_uuid d.user_id)) (open_session cfg sha256 draws)

  identified-eq :
      (d : AuthResponseDto) (i : ℕ) (s : Session)
      → parse_uuid d.user_id ≡ ok i
      → identified d s ≡ open_session cfg sha256 draws i s
  identified-eq d i s e = ground (arith, e)

  -- How login goes on from accepted credentials and answers.
  logged_in-ok :
      (d : AuthResponseDto) (i : ℕ) (w w' : World) (reply : Reply)
      → parse_uuid d.user_id ≡ ok i
      → logged_in cfg jwt service sha256 draws d w ≡ (ok reply, w')
      → (s : SessionRow) × (s' : Session) × (opens i w.db ≡ (ok s, s'))
        × (w'.db ≡ s'.db)
        × (reply
            ≡ token_reply cfg jwt service sha256 draws
                (issue_access cfg jwt service sha256 draws d.user_id d.role s.id))
  unfolding logged_in
  logged_in-ok d i w w' reply e h = go (opens i w.db) refl
    where
      start : Session
      start = record { db = w.db; failed = false }

      go :
          (x : Result SessionRow × Session)
          → opens i w.db ≡ x
          → (s : SessionRow) × (s' : Session) × (opens i w.db ≡ (ok s, s'))
            × (w'.db ≡ s'.db)
            × (reply
                ≡ token_reply cfg jwt service sha256 draws
                    (issue_access cfg jwt service sha256 draws d.user_id d.role s.id))
      go (ok s, s') q =
          let b = identified-eq d i start e in
          let a = with_repo-atomic user_session_repo (identified d) w tt in
          (s, s', q, ground (arith, h, q, b, a), ground (arith, h, q, b, a))
      go (err x, s') q =
          let b = identified-eq d i start e in
          let a = with_repo-atomic user_session_repo (identified d) w tt in
          absurd (ground (arith, h, q, b, a))

  -- The rest of login on the report of the authentication.
  login-accepted :
      (verify : UserRawPassword → UserPasswordHash → Result Bool) (username password : String)
      (w w' : World) (reply : Reply)
      → Returning verify
      → IsConsistent w.db
      → login cfg jwt service sha256 draws verify username password w ≡ (ok reply, w')
      → (r : UserRow) × (w1 : World) × (accepted verify
            (record { username = username; raw_password = password })
            w.db
          ≡ some r)
        × (w1.db ≡ w.db)
        × (logged_in cfg jwt service sha256 draws (auth_output (read r)) w1 ≡ (ok reply, w'))
  unfolding login
  login-accepted verify username password w w' reply v k h = go (accepted verify dto w.db) refl
    where
      dto : AuthRequestDto
      dto = record { username = username; raw_password = password }

      w1 : World
      w1 = (authenticate_user verify dto new_presenter w).1

      go :
          (o : Option UserRow)
          → accepted verify dto w.db ≡ o
          → (r : UserRow) × (w1 : World) × (accepted verify dto w.db ≡ some r)
            × (w1.db ≡ w.db)
            × (logged_in cfg jwt service sha256 draws (auth_output (read r)) w1 ≡ (ok reply, w'))
      go none e =
          absurd (ground (arith, h, e, authenticate_user-accepted verify dto new_presenter w v k))
      go (some r) e =
          let a = authenticate_user-accepted verify dto new_presenter w v k in
          (r, w1, e, a.1, ground (arith, h, e, a.0))

-- What the specification of the authentication accepts is an active row of the username.
accepted-found :
    (verify : UserRawPassword → UserPasswordHash → Result Bool) (dto : AuthRequestDto) (db : Db)
    (r : UserRow)
    → accepted verify dto db ≡ some r
    → (by_username dto.username db ≡ some r) × (r.is_active ≡ true)
accepted-found verify dto db r h = go (by_username dto.username db) refl
  where
    go :
        (o : Option UserRow)
        → by_username dto.username db ≡ o
        → (by_username dto.username db ≡ some r) × (r.is_active ≡ true)
    go none e = absurd (ground (arith, h, e))
    go (some x) e = (ground (arith, h, e), ground (arith, h, e))

-- On consistent tables whose user ids have 128 bits, and with a verifier that returns: once login
-- has answered, there is an active user of that username in the tables, the answer is the tokens
-- with the access token issued for that user, their role and the new session; and until the time
-- at which the session expires, while the tables stay, the authentication service accepts the
-- token of that user, role and session, as that user.
pub login-current_user :
    (cfg : Settings) (jwt : PyJwt) (service : JwtTokenService) (sha256 : String → String)
    (draws : Draws) (verify : UserRawPassword → UserPasswordHash → Result Bool)
    (username password : String) (c : Clocks) (w w' : World) (reply : Reply)
    → Returning verify
    → All (λ (r : UserRow). r.id < 2 ^ 128) w.db.users
    → IsConsistent w.db
    → c.db_now < minutes cfg.session_expiry_time + draws.clocks.now
    → login cfg jwt service sha256 draws verify username password w ≡ (ok reply, w')
    → (r : UserRow) × (by_username username w.db ≡ some r)
      × (r.is_active ≡ true)
      × (reply
          ≡ token_reply cfg jwt service sha256 draws (
              issue_access cfg jwt service sha256 draws
                (uuid_text r.id)
                (role_text r.role)
                draws.session_id))
      × (current_user c (payload_for r draws.session_id) w' ≡ (ok (read r), w'))
unfolding open_session
login-current_user cfg jwt service sha256 draws verify username password c w w' reply v b k l h =
    let (r, w1, e, same, rest) =
      login-accepted cfg jwt service sha256 draws verify username password w w' reply v k h in
    let (f, a) =
      accepted-found verify (record { username = username; raw_password = password }) w.db r e in
    let small : r.id < 2 ^ 128 = All-first (λ (x : UserRow). x.id < 2 ^ 128) _ w.db.users r b f in
    let (s, s', o, g, t) =
      logged_in-ok cfg jwt service sha256 draws (auth_output (read r)) r.id w1 w' reply
        (parse_uuid-uuid_text r.id small) rest in
    let (live, users, new) =
      create-live c.db_now draws.clocks draws.session_id r.id cfg.session_expiry_time
        cfg.max_concurrent_sessions (sha256 draws.refresh_token)
        (record { db = w1.db; failed = false }) s' s l o in
    let at_id = (by_id-first _ w.db.users r k.users_keyed f).0 in
    let unchanged : w'.db.users ≡ w.db.users =
      ap (λ (db : Db). db.users) g ∙ users ∙ ap (λ (db : Db). db.users) same in
    let reply_of : SessionRow → Reply = λ x.
      token_reply cfg jwt service sha256 draws
        (issue_access cfg jwt service sha256 draws (uuid_text r.id) (role_text r.role) x.id) in
    (
      r,
      f,
      a,
      t ∙ ap reply_of new,
      current_user-accepts c r draws.session_id w' (first-IsReadable _ w.db (some r) k f)
          (subst (λ (us : List UserRow). first (λ (x : UserRow). x.id == r.id) us ≡ some r)
            (sym unchanged) at_id)
          a
          (subst
            (λ (db : Db).
              exists (is_live_session c.db_now r.id draws.session_id) db.sessions ≡ true)
            (sym g) live),
    )
