-- ===== src/Http/Routes.antt =====
-- The routers of app/interface/http/routes as main.py includes them, with /health: the calls
-- that the application serves, and the handler of each.
use fast_api_ddd_template.Base.{Bool, Option, String}
use fast_api_ddd_template.Domain.Errors.{Result}
use fast_api_ddd_template.Domain.Values.{UserId, UserRawPassword, UserPasswordHash}
use fast_api_ddd_template.World.{Action, pure}
use fast_api_ddd_template.Security.Jwt.{PyJwt, JwtTokenService}
use fast_api_ddd_template.Application.Dto.{CreateUserInputDto}
use fast_api_ddd_template.Http.Message.{Request, Reply, json, health_status}
use fast_api_ddd_template.Http.UserRoutes
use fast_api_ddd_template.Http.AuthRoutes
use fast_api_ddd_template.Http.AuthRoutes.{Settings, Draws}

-- A call, with the parameters that its handler takes from the request.
pub data Call : Type 0 where
  login : String → String → Call
  refresh : String → Call
  logout : Call
  get_all_users : Call
  get_user : String → Call
  update_user : String → Option String → Option String → Call
  create_user : CreateUserInputDto → Call
  change_password : String → String → Call
  delete_user : String → Call
  health : Call

-- What the deployment fixes: settings, key and password functions.
pub record Deployment : Type 0 where
  pub cfg : Settings
  pub jwt : PyJwt
  pub service : JwtTokenService
  pub sha256 : String → String
  pub repr : String → String
  pub hash : UserRawPassword → Result UserPasswordHash
  pub verify : UserRawPassword → UserPasswordHash → Result Bool

-- The handler of a call. A request draws its clocks, tokens and fresh ids.
unfoldable pub handle : Deployment → Draws → UserId → Call → Request → Action Reply
handle d draws new_id (Call.login username password) request =
    AuthRoutes.login d.cfg d.jwt d.service d.sha256 draws d.verify username password
handle d draws new_id (Call.refresh token) request =
    AuthRoutes.refresh d.cfg d.jwt d.service d.sha256 draws token
handle d draws new_id Call.logout request = AuthRoutes.logout draws.clocks request
handle d draws new_id Call.get_all_users request =
    UserRoutes.get_all_users draws.clocks d.repr d.hash request
handle d draws new_id (Call.get_user user_id) request =
    UserRoutes.get_user draws.clocks d.repr d.hash request user_id
handle d draws new_id (Call.update_user user_id username role) request =
    UserRoutes.update_user draws.clocks d.repr d.hash request user_id username role
handle d draws new_id (Call.create_user body) request =
    UserRoutes.create_user draws.clocks d.repr d.hash request new_id body
handle d draws new_id (Call.change_password user_id new_password) request =
    UserRoutes.change_password draws.clocks d.repr d.hash request user_id new_password
handle d draws new_id (Call.delete_user user_id) request =
    UserRoutes.delete_user draws.clocks d.repr d.hash request user_id
handle d draws new_id Call.health request = pure (json 200 (health_status "ok"))
