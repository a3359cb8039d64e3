-- ===== src/Http/AuthRoutes.antt =====
-- app/interface/http/routes/auth.py: login, refresh and logout. The settings of config.py, the
-- clocks, fresh ids, the random token, SHA-256, PyJWT and the password verifier are given.
use fast_api_ddd_template.Ports.Sql.{sql_ports}
use fast_api_ddd_template.Base.{
  ℕ, ◌*◌, Bool, none, some, [], ◌∷◌, String, str_eq, if◌then◌else◌, ◌/◌,
}
use fast_api_ddd_template.Domain.Errors.{Result, http_exception, other_error}
use fast_api_ddd_template.Domain.Values.{UserRawPassword, UserPasswordHash, role_text}
use fast_api_ddd_template.Domain.Uuid.{uuid_text, parse_uuid}
use fast_api_ddd_template.Database
use fast_api_ddd_template.Database.{SessionRow, UserRow, Query}
use fast_api_ddd_template.Database.SessionRepo.{
  Clocks, create, revoke, rotate_refresh_token, get_user_valid_session_by_refresh_token,
}
use fast_api_ddd_template.World
use fast_api_ddd_template.World.{Action, Event, pure, raise, lift, write_log}
use fast_api_ddd_template.UnitOfWork.{with_repo, with_repo_logging, user_session_repo}
use fast_api_ddd_template.Security.Jwt.{PyJwt, JwtTokenService, Claims, Claim, issue}
use fast_api_ddd_template.Application.Dto.{AuthResponseDto}
use fast_api_ddd_template.Application.Presenter.{new_presenter}
use fast_api_ddd_template.Http.UseCases.{get_authenticate_user_uc}
use fast_api_ddd_template.Http.Message.{Reply, Request, json, token, nothing}
use fast_api_ddd_template.Http.Presenting.{ok_response, raise_for}

pub record Settings : Type 0 where
  pub jwt_token_expiry : ℕ
  pub refresh_token_expiry : ℕ
  pub session_expiry_time : ℕ
  pub max_concurrent_sessions : ℕ

-- What a request draws from outside: the clocks, `uuid4` for a session and for a `jti`, and
-- `refresh_token_service.generate()`.
pub record Draws : Type 0 where
  pub clocks : Clocks
  pub session_id : ℕ
  pub jti : String
  pub refresh_token : String

-- The claims of an access token.
abbrev pub access_claims : String → String → String → Claims
access_claims sub role sid =
    ("sub", Claim.text sub) ∷ ("role", Claim.text role) ∷ ("sid", Claim.text sid) ∷ []

module _ (cfg : Settings) (sha256 : String → String) (draws : Draws) where
  -- The body of the unit of work of `login`.
  unfoldable pub open_session : ℕ → Query SessionRow
  open_session user_id =
      create draws.clocks draws.session_id user_id cfg.session_expiry_time
        cfg.max_concurrent_sessions (sha256 draws.refresh_token)

  -- The body of the unit of work of `refresh`.
  unfoldable pub rotate : String → Query (UserRow × SessionRow)
  rotate refresh_token =
      Database.◌>>=◌ (get_user_valid_session_by_refresh_token draws.clocks (sha256 refresh_token))
        λ found. elim found [
          | none ↦ Database.raise (http_exception 401 "Not authorized." [])
          | some (u, s) ↦
              Database.◌>>◌
                (rotate_refresh_token draws.clocks s (sha256 draws.refresh_token)
                  cfg.session_expiry_time)
                (Database.pure (u, s))
        ]

module _ (cfg : Settings) (jwt : PyJwt) (service : JwtTokenService) (sha256 : String → String)
    (draws : Draws) where
  abbrev pub issue_access : String → String → ℕ → String
  issue_access sub role session_id =
      issue jwt service (draws.clocks.now / 1000000) draws.jti
        (access_claims sub role (uuid_text session_id)) none

  abbrev pub token_reply : String → Reply
  token_reply access_token = json 200 (
      token (record {
        access_token = access_token;
        access_token_type = "Bearer";
        expires_in = cfg.jwt_token_expiry * 60;
        refresh_token = some draws.refresh_token;
        refresh_expires_in = cfg.refresh_token_expiry * 60;
      }))

  -- `login` from where the credentials are accepted.
  unfoldable pub logged_in : AuthResponseDto → Action Reply
  unfolding open_session
  logged_in d =
      World.◌>>=◌
        (with_repo user_session_repo
          (Database.◌>>=◌ (Database.lift (parse_uuid d.user_id)) (open_session cfg sha256 draws)))
        λ s.
          World.◌>>◌ (write_log (Event.login d.user_id (uuid_text s.id)))
            (pure (token_reply (issue_access d.user_id d.role s.id)))

  -- POST /auth/login
  unfoldable pub login :
      (UserRawPassword → UserPasswordHash → Result Bool) → String → String → Action Reply
  unfolding logged_in
  login verify username password =
      World.◌>>=◌
        (get_authenticate_user_uc verify (record { username = username; raw_password = password })
          new_presenter)
        λ p. elim (ok_response p) [ some d ↦ logged_in d | none ↦ raise (raise_for p) ]

  -- POST /auth/refresh
  unfoldable pub refresh : String → Action Reply
  unfolding rotate
  refresh refresh_token =
      if str_eq refresh_token ""
      then raise (http_exception 401 "Not authorized." [])
      else World.◌>>=◌
          (with_repo_logging user_session_repo (rotate cfg sha256 draws refresh_token)
            (λ (u, s). Event.token_refresh (uuid_text u.id) (uuid_text s.id)))
          λ (u, s). pure (token_reply (issue_access (uuid_text u.id) (role_text u.role) s.id))

-- POST /auth/logout
unfoldable pub logout : Clocks → Request → Action Reply
logout c request = elim request.auth_payload [
  | none ↦ raise (other_error "AttributeError")
  | some auth ↦ World.◌>>=◌ (with_repo user_session_repo (revoke c auth.session_id)) λ revoked.
      if revoked
      then World.◌>>◌
          (write_log (Event.logout (uuid_text auth.user_id) (uuid_text auth.session_id)))
          (pure (json 204 nothing))
      else pure (json 204 nothing)
]
