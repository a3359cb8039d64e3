-- ===== src/Drf/AuthViews.antt =====
-- app/interface/drf/views/auth.py: login, refresh and logout on the Django stack. What a request
-- draws from outside is given, as in Http/AuthRoutes.
use fast_api_ddd_template.Base.{ℕ, ◌*◌, ◌/◌, Bool, Option, none, some, String, if◌then◌else◌}
use fast_api_ddd_template.Domain.Errors.{Result, other_error}
use fast_api_ddd_template.Domain.Values.{UserRawPassword, UserPasswordHash, role_text}
use fast_api_ddd_template.Domain.Uuid.{uuid_text, parse_uuid}
use fast_api_ddd_template.Database
use fast_api_ddd_template.Database.{SessionRow, UserRow, Query}
use fast_api_ddd_template.Database.SessionRepo.{Clocks}
use fast_api_ddd_template.World
use fast_api_ddd_template.World.{Action, Event, pure, raise, lift, write_log}
use fast_api_ddd_template.UnitOfWork.{user_session_repo}
use fast_api_ddd_template.Security.Jwt.{PyJwt, JwtTokenService, issue}
use fast_api_ddd_template.Application.Dto.{AuthResponseDto}
use fast_api_ddd_template.Application.Presenter.{new_presenter}
use fast_api_ddd_template.DjangoOrm.SessionRepo.{
  create, revoke, rotate_refresh_token, get_user_valid_session_by_refresh_token,
}
use fast_api_ddd_template.DjangoOrm.UnitOfWork.{with_repo, with_repo_logging}
use fast_api_ddd_template.Http.AuthRoutes.{Settings, Draws, access_claims}
use fast_api_ddd_template.Http.Message.{Reply, Request, json, token, nothing, detail}
use fast_api_ddd_template.Http.Presenting.{ok_response}
use fast_api_ddd_template.Drf.Framework.{Framework, Input}
use fast_api_ddd_template.Drf.Serializers.{validate_login, validate_refresh}
use fast_api_ddd_template.Drf.Presenting.{raise_for}
use fast_api_ddd_template.Drf.Dependencies.{get_authenticate_user_uc}

module _ (cfg : Settings) (sha256 : String → String) (draws : Draws) where
  -- The body of the unit of work of `LoginView.post`: the session.
  unfoldable pub open_session : String → Query SessionRow
  open_session user_id = Database.◌>>=◌ (Database.lift (parse_uuid user_id)) λ id.
      create draws.clocks draws.session_id id cfg.session_expiry_time cfg.max_concurrent_sessions
        (sha256 draws.refresh_token)

  -- The body of the unit of work of `RefreshView.post`, which may return from within.
  unfoldable pub rotate : String → Query (Option (UserRow × SessionRow))
  rotate refresh_token =
      Database.◌>>=◌ (get_user_valid_session_by_refresh_token draws.clocks (sha256 refresh_token))
        λ found. elim found [
          | none ↦ Database.pure none
          | some (u, s) ↦
              Database.◌>>◌
                (rotate_refresh_token draws.clocks s (sha256 draws.refresh_token)
                  cfg.session_expiry_time)
                (Database.pure (some (u, s)))
        ]

abbrev pub refreshed : Option (UserRow × SessionRow) → Option Event
refreshed none = none
refreshed (some (u, s)) = some (Event.token_refresh (uuid_text u.id) (uuid_text s.id))

module _ (f : Framework) (cfg : Settings) (jwt : PyJwt) (service : JwtTokenService)
    (sha256 : String → String) (draws : Draws) where
  abbrev issue_access : String → String → ℕ → String
  issue_access sub role session_id =
      issue jwt service (draws.clocks.now / 1000000) draws.jti
        (access_claims sub role (uuid_text session_id)) none

  -- The data of `TokenSerializer`.
  abbrev token_data : String → Reply
  token_data access_token = json 200 (
      token (record {
        access_token = access_token;
        access_token_type = "Bearer";
        expires_in = cfg.jwt_token_expiry * 60;
        refresh_token = some draws.refresh_token;
        refresh_expires_in = cfg.refresh_token_expiry * 60;
      }))

  -- `LoginView.post` from where the credentials are accepted.
  unfoldable pub logged_in : AuthResponseDto → Action Reply
  unfolding open_session
  logged_in d =
      World.◌>>=◌ (with_repo user_session_repo (open_session cfg sha256 draws d.user_id)) λ s.
        World.◌>>◌ (write_log (Event.login d.user_id (uuid_text s.id)))
          (pure (token_data (issue_access d.user_id d.role s.id)))

  -- `LoginView.post`
  unfoldable pub login :
      (UserRawPassword → UserPasswordHash → Result Bool) → Input → Input → Action Reply
  unfolding logged_in
  login verify username password = World.◌>>=◌ (lift (validate_login f username password)) λ dto.
      World.◌>>=◌ (get_authenticate_user_uc verify dto new_presenter)
        λ p. elim (ok_response p) [ some d ↦ logged_in d | none ↦ raise (raise_for p) ]

  abbrev pub rotated : Option (UserRow × SessionRow) → Reply
  rotated none = json 401 (detail "Not authorized.")
  rotated (some (u, s)) = token_data (issue_access (uuid_text u.id) (role_text u.role) s.id)

  -- `RefreshView.post`
  unfoldable pub refresh : Input → Action Reply
  unfolding rotate
  refresh input = World.◌>>=◌ (lift (validate_refresh f input)) λ refresh_token.
      World.◌>>=◌
        (with_repo_logging user_session_repo (rotate cfg sha256 draws refresh_token) refreshed)
        λ found. pure (rotated found)

-- `LogoutView.post`
unfoldable pub logout : Clocks → Request → Action Reply
logout c request = elim request.auth_payload [
  | none ↦ raise (other_error "AttributeError")
  | some auth ↦ World.◌>>=◌ (with_repo user_session_repo (revoke c auth.session_id)) λ revoked.
      if revoked
      then World.◌>>◌
          (write_log (Event.logout (uuid_text auth.user_id) (uuid_text auth.session_id)))
          (pure (json 204 nothing))
      else pure (json 204 nothing)
]
