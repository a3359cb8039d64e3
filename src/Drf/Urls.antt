-- ===== src/Drf/Urls.antt =====
-- app/interface/drf/urls.py: the calls that the URL configuration routes, and the view of each.
use fast_api_ddd_template.Base.{ℕ}
use fast_api_ddd_template.Domain.Values.{UserId}
use fast_api_ddd_template.World.{Action, pure}
use fast_api_ddd_template.Http.AuthRoutes.{Draws}
use fast_api_ddd_template.Http.Message.{Request, Reply, json, health_status}
use fast_api_ddd_template.Http.Routes.{Deployment}
use fast_api_ddd_template.Drf.Framework.{Framework, Input}
use fast_api_ddd_template.Drf.UserViews
use fast_api_ddd_template.Drf.AuthViews
use fast_api_ddd_template.Drf.Middleware.{load_middleware}

-- A call, with the id in its path and the fields of its body.
pub data Call : Type 0 where
  login : Input → Input → Call
  refresh : Input → Call
  logout : Call
  list_users : Call
  create_user : Input → Input → Input → Call
  get_user : ℕ → Call
  update_user : ℕ → Input → Input → Call
  delete_user : ℕ → Call
  change_password : ℕ → Input → Call
  health : Call

-- The view of a call. `health_check` is a plain view of Django, which never raises.
unfoldable pub view_of : Framework → Deployment → Draws → UserId → Call → Request → Action Reply
view_of f d draws new_id (Call.login username password) request =
    AuthViews.login f d.cfg d.jwt d.service d.sha256 draws d.verify username password
view_of f d draws new_id (Call.refresh token) request =
    AuthViews.refresh f d.cfg d.jwt d.service d.sha256 draws token
view_of f d draws new_id Call.logout request = AuthViews.logout draws.clocks request
view_of f d draws new_id Call.list_users request = UserViews.list_users draws.clocks request
view_of f d draws new_id (Call.create_user username password role) request =
    UserViews.post f draws.clocks d.repr d.hash request new_id username password role
view_of f d draws new_id (Call.get_user user_id) request =
    UserViews.retrieve draws.clocks request user_id
view_of f d draws new_id (Call.update_user user_id username role) request =
    UserViews.patch f draws.clocks d.repr d.hash request user_id username role
view_of f d draws new_id (Call.delete_user user_id) request =
    UserViews.delete draws.clocks request user_id
view_of f d draws new_id (Call.change_password user_id new_password) request =
    UserViews.patch_password f draws.clocks d.repr d.hash request user_id new_password
view_of f d draws new_id Call.health request = pure (json 200 (health_status "ok"))

-- A request as it arrives: the call that it is routed to, what its view draws, and the time, in
-- seconds, at which its token is decoded.
pub record Arrival : Type 0 where
  pub request : Request
  pub call : Call
  pub draws : Draws
  pub new_id : UserId
  pub seconds : ℕ

-- The application: the views behind the middlewares.
unfoldable pub serve : Framework → Deployment → Arrival → Action Reply
unfolding load_middleware view_of
serve f d a =
    load_middleware f d.jwt d.service a.seconds (view_of f d a.draws a.new_id a.call) a.request
