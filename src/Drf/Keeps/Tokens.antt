-- ===== src/Drf/Keeps/Tokens.antt =====
-- The invariant of the tables under app/interface/drf/views/auth.py.
use fast_api_ddd_template.Ports.Django.{django_ports}
use fast_api_ddd_template.Ports.Django.Laws.{django_laws}
use fast_api_ddd_template.Base.{
  ℕ, ◌+◌, ◌≡◌, refl, arith, Bool, Option, none, some, String, subst, sym,
}
use fast_api_ddd_template.Domain.Errors.{Result, ok, err}
use fast_api_ddd_template.Domain.Uuid.{parse_uuid}
use fast_api_ddd_template.Domain.Values.{UserPasswordHash, UserRawPassword}
use fast_api_ddd_template.Database.{Session, SessionRow, UserRow}
use fast_api_ddd_template.Database.Invariant.{IsConsistent, IsOwned}
use fast_api_ddd_template.Database.Ensures.{Ensures, Anything}
use fast_api_ddd_template.Database.SessionRepo as Sql
use fast_api_ddd_template.Database.SessionRepo.{Clocks, minutes, join_by_hash}
use fast_api_ddd_template.Database.SessionRepo.Keeps.{rewrite_one-at, join_by_hash-IsJoined}
use fast_api_ddd_template.World
use fast_api_ddd_template.World.{World, Action}
use fast_api_ddd_template.World.Preserves.{
  Preserves, Preserves-lift, Preserves-bind, Preserves-raise, Preserves-pure, Returns-Anything,
}
use fast_api_ddd_template.UnitOfWork.{user_session_repo}
use fast_api_ddd_template.Auth.{AuthPayload}
use fast_api_ddd_template.Security.Jwt.{PyJwt, JwtTokenService}
use fast_api_ddd_template.Application.Dto.{AuthResponseDto}
use fast_api_ddd_template.Application.Presenter.{Presenter, new_presenter}
use fast_api_ddd_template.Application.AuthenticateUser.{authenticate_user}
use fast_api_ddd_template.Application.Keeps.Credentials.{authenticate_user-Preserves}
use fast_api_ddd_template.DjangoOrm.SessionRepo as Django
use fast_api_ddd_template.DjangoOrm.SessionRepo.{revoke, create}
use fast_api_ddd_template.DjangoOrm.SessionRepo.Tokens.{get_by_token-agree}
use fast_api_ddd_template.DjangoOrm.SessionRepo.Rewrites.{each_found}
use fast_api_ddd_template.DjangoOrm.SessionRepo.Agrees.{rotate-agree}
use fast_api_ddd_template.DjangoOrm.SessionRepo.Keeps.{create_settles, revoke_keeps}
use fast_api_ddd_template.DjangoOrm.UnitOfWork.{with_repo_logging}
use fast_api_ddd_template.DjangoOrm.UnitOfWork.Preserves.{
  IsSettled, with_repo-Settles, with_repo-Preserves, with_repo_logging-Preserves,
}
use fast_api_ddd_template.Http.AuthRoutes.{Settings, Draws}
use fast_api_ddd_template.Http.Message.{Request, Reply}
use fast_api_ddd_template.Http.Presenting.{ok_response}
use fast_api_ddd_template.Drf.Framework.{Framework, Input}
use fast_api_ddd_template.Drf.Serializers.{validate_login, validate_refresh}
use fast_api_ddd_template.Drf.Presenting.{raise_for}
use fast_api_ddd_template.Drf.Dependencies.{get_authenticate_user_uc}
use fast_api_ddd_template.Drf.AuthViews.{
  open_session, rotate, refreshed, logged_in, login, refresh, rotated, logout,
}

module _ (cfg : Settings) (sha256 : String → String) (draws : Draws) where
  open_session-Settles :
      (user_id : String) (s : Session)
      → IsConsistent s.db
      → IsSettled (open_session cfg sha256 draws user_id s).1
  unfolding open_session
  open_session-Settles user_id s h = go (parse_uuid user_id) refl
    where
      go :
          (r : Result ℕ)
          → parse_uuid user_id ≡ r
          → IsSettled (open_session cfg sha256 draws user_id s).1
      go (ok i) e = rw e (
          create_settles draws.clocks draws.session_id i cfg.session_expiry_time
            cfg.max_concurrent_sessions (sha256 draws.refresh_token) s h)
      go (err x) e = rw e (λ _. h)

  rotated-session :
      (r : SessionRow) (s : Session)
      → IsConsistent s.db
      → Sql.session_by_id r.id s.db ≡ some r
      → IsOwned s.db.users r
      → IsConsistent
          (Django.rotate_refresh_token draws.clocks r
            (sha256 draws.refresh_token)
            cfg.session_expiry_time
            s).1.db
  unfolding Sql.rotate_refresh_token
  rotated-session r s h e o =
      subst (λ (x : Result (Unit {0}) × Session). IsConsistent x.1.db)
        (sym
          (rotate-agree draws.clocks r (sha256 draws.refresh_token) cfg.session_expiry_time s h e))
        (rewrite_one-at
          (record r {
            refresh_token_hash = sha256 draws.refresh_token;
            expires_at = minutes cfg.session_expiry_time + draws.clocks.now;
          })
          s h o).0

  -- What `refresh` does once it has looked for the session.
  rotated-db :
      (refresh_token : String) (s : Session)
      → IsConsistent s.db
      → (o : Option (UserRow × SessionRow))
      → join_by_hash draws.clocks.now (sha256 refresh_token) s.db.users s.db.sessions ≡ o
      → IsConsistent (rotate cfg sha256 draws refresh_token s).1.db
  unfolding rotate Sql.get_user_valid_session_by_refresh_token
  rotated-db refresh_token s h none e =
      ground (arith, e, get_by_token-agree draws.clocks (sha256 refresh_token) s h, h)
  rotated-db refresh_token s h (some (u, r)) e =
      let j =
        join_by_hash-IsJoined draws.clocks.now (sha256 refresh_token) s.db.users s.db.sessions u r
          e in
      ground (
        arith,
        e,
        get_by_token-agree draws.clocks (sha256 refresh_token) s h,
        rotated-session r s h (j.in_sessions _ (each_found s.db.sessions h.sessions_keyed))
            (j.in_sessions (IsOwned s.db.users) h.sessions_owned),
      )

  rotate-Ensures :
      (refresh_token : String) → Ensures Anything (rotate cfg sha256 draws refresh_token)
  rotate-Ensures refresh_token = record {
    at = λ s h. (rotated-db refresh_token s h _ refl, Returns-Anything _);
  }

module _ (f : Framework) (cfg : Settings) (jwt : PyJwt) (service : JwtTokenService)
    (sha256 : String → String) (draws : Draws) where
  logged_in-Preserves :
      (d : AuthResponseDto) → Preserves Anything (logged_in f cfg jwt service sha256 draws d)
  unfolding logged_in
  logged_in-Preserves d = record {
    at = λ w h. (
      ground (
        arith,
        ((with_repo-Settles {P = Anything} user_session_repo
              (open_session cfg sha256 draws d.user_id) tt
              (λ s k. (open_session-Settles cfg sha256 draws d.user_id s k, Returns-Anything _))).at
            w h).0,
      ),
      Returns-Anything _,
    );
  }

  after_login : Presenter AuthResponseDto → Action Reply
  after_login p = elim (ok_response p) [
    | some d ↦ logged_in f cfg jwt service sha256 draws d
    | none ↦ World.raise (raise_for p)
  ]

  after_login-Preserves : (p : Presenter AuthResponseDto) → Preserves Anything (after_login p)
  unfolding after_login
  after_login-Preserves p =
      elim (ok_response p)
        as (λ o. Preserves Anything (
          let m : Action Reply = elim o [
            | some d ↦ logged_in f cfg jwt service sha256 draws d
            | none ↦ World.raise (raise_for p)
          ] in
          m)) [ some d ↦ logged_in-Preserves d | none ↦ Preserves-raise (raise_for p) ]

  pub login-Preserves :
      (verify : UserRawPassword → UserPasswordHash → Result Bool) (username password : Input)
      → Preserves Anything (login f cfg jwt service sha256 draws verify username password)
  unfolding login after_login get_authenticate_user_uc
  login-Preserves verify username password =
      Preserves-bind {P = Anything} (World.lift (validate_login f username password)) _
        (Preserves-lift _ (Returns-Anything _))
        λ dto _.
          Preserves-bind {P = Anything} (authenticate_user verify dto new_presenter) after_login
            (authenticate_user-Preserves verify dto new_presenter) (λ p _. after_login-Preserves p)

  pub refresh-Preserves :
      (input : Input) → Preserves Anything (refresh f cfg jwt service sha256 draws input)
  unfolding refresh
  refresh-Preserves input =
      Preserves-bind {P = Anything} (World.lift (validate_refresh f input)) _
        (Preserves-lift _ (Returns-Anything _))
        λ token _.
          Preserves-bind {P = Anything}
            (with_repo_logging user_session_repo (rotate cfg sha256 draws token) refreshed)
            (λ found. World.pure (rotated f cfg jwt service sha256 draws found))
            (with_repo_logging-Preserves user_session_repo (rotate cfg sha256 draws token) refreshed
              tt (rotate-Ensures cfg sha256 draws token))
            (λ found _. Preserves-pure _ tt)

pub logout-Preserves : (c : Clocks) (request : Request) → Preserves Anything (logout c request)
unfolding logout
logout-Preserves c request = record {
  at = λ w h. (keeps w h request.auth_payload refl, Returns-Anything _);
}
  where
    keeps :
        (w : World)
        → IsConsistent w.db
        → (o : Option AuthPayload) → request.auth_payload ≡ o
        → IsConsistent (logout c request w).1.db
    keeps w h (some auth) e = ground (
      arith,
      e,
      ((with_repo-Preserves user_session_repo (revoke c auth.session_id) tt
            (revoke_keeps c auth.session_id)).at
          w h).0,
    )
    keeps w h none e = ground (arith, e)
