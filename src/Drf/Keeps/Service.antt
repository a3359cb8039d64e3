-- ===== src/Drf/Keeps/Service.antt =====
-- The invariant of the tables under the application on Django, middlewares and all.
use fast_api_ddd_template.Base.{ℕ, ◌≡◌, refl, arith, true, Option, none, some, List, [], ◌∷◌}
use fast_api_ddd_template.Domain.Errors.{Result, ok, err}
use fast_api_ddd_template.Domain.Uuid.{suffix}
use fast_api_ddd_template.Domain.Values.{UserId}
use fast_api_ddd_template.Database.Invariant.{IsConsistent}
use fast_api_ddd_template.Database.Invariant.UserMethods.{IsHasher}
use fast_api_ddd_template.Database.Ensures.{Anything}
use fast_api_ddd_template.World.{World}
use fast_api_ddd_template.World.Preserves.{Preserves, Returns-Anything}
use fast_api_ddd_template.Auth.{AuthPayload}
use fast_api_ddd_template.Security.Jwt.{
  PyJwt, JwtTokenService, Outcome, decode, accepted, token_expired, token_invalid,
}
use fast_api_ddd_template.Http.Message.{Request, get_header}
use fast_api_ddd_template.Http.AuthRoutes.{Draws}
use fast_api_ddd_template.Http.Routes.{Deployment}
use fast_api_ddd_template.Drf.Framework.{Framework, View, dispatch, convert_exception_to_response}
use fast_api_ddd_template.Drf.Middleware.{
  exception_handler, read_claims, admit, auth, cache_control, load_middleware,
}
use fast_api_ddd_template.Drf.Urls.{Call, view_of, Arrival, serve}
use fast_api_ddd_template.Drf.Keeps.{
  list_users-Preserves, retrieve-Preserves, delete-Preserves, post-Preserves, patch-Preserves,
  patch_password-Preserves,
}
use fast_api_ddd_template.Drf.Keeps.Tokens.{login-Preserves, refresh-Preserves, logout-Preserves}

-- Whatever the request, the view keeps the invariant.
abbrev IsSafe : View → Type 0
IsSafe v = (request : Request) → Preserves Anything (v request)

view_of-IsSafe :
    (f : Framework) (d : Deployment) (draws : Draws) (new_id : UserId) (call : Call)
    → IsHasher d.hash
    → IsSafe (view_of f d draws new_id call)
unfolding view_of
view_of-IsSafe f d draws new_id (Call.login username password) k request =
    login-Preserves f d.cfg d.jwt d.service d.sha256 draws d.verify username password
view_of-IsSafe f d draws new_id (Call.refresh token) k request =
    refresh-Preserves f d.cfg d.jwt d.service d.sha256 draws token
view_of-IsSafe f d draws new_id Call.logout k request = logout-Preserves draws.clocks request
view_of-IsSafe f d draws new_id Call.list_users k request =
    list_users-Preserves draws.clocks request
view_of-IsSafe f d draws new_id (Call.create_user username password role) k request =
    post-Preserves f draws.clocks d.repr d.hash k request new_id username password role
view_of-IsSafe f d draws new_id (Call.get_user user_id) k request =
    retrieve-Preserves draws.clocks request user_id
view_of-IsSafe f d draws new_id (Call.update_user user_id username role) k request =
    patch-Preserves f draws.clocks d.repr d.hash k request user_id username role
view_of-IsSafe f d draws new_id (Call.delete_user user_id) k request =
    delete-Preserves draws.clocks request user_id
view_of-IsSafe f d draws new_id (Call.change_password user_id new_password) k request =
    patch_password-Preserves f draws.clocks d.repr d.hash k request user_id new_password
view_of-IsSafe f d draws new_id Call.health k request = record { at = λ w h. (h, tt) }

module _ (f : Framework) (v : View) (k : IsSafe v) where
  dispatch-IsSafe : IsSafe (dispatch f v)
  unfolding dispatch
  dispatch-IsSafe request = record {
    at = λ w h. (ground (arith, ((k request).at w h).0), Returns-Anything _);
  }

  convert-IsSafe : IsSafe (convert_exception_to_response f v)
  unfolding convert_exception_to_response
  convert-IsSafe request = record {
    at = λ w h. (ground (arith, ((k request).at w h).0), Returns-Anything _);
  }

module _ (v : View) (k : IsSafe v) where
  exception_handler-IsSafe : IsSafe (exception_handler v)
  unfolding exception_handler
  exception_handler-IsSafe request = record {
    at = λ w h. (ground (arith, ((k request).at w h).0), Returns-Anything _);
  }

  cache_control-IsSafe : IsSafe (cache_control v)
  unfolding cache_control
  cache_control-IsSafe request = record {
    at = λ w h. (ground (arith, ((k request).at w h).0), Returns-Anything _);
  }

  -- A request goes on with a payload, or does not.
  admit-IsSafe : (request : Request) (o : Outcome) → Preserves Anything (admit v request o)
  admit-IsSafe request token_expired = record { at = λ w h. (h, tt) }
  admit-IsSafe request token_invalid = record { at = λ w h. (h, tt) }
  admit-IsSafe request (accepted cs) = record {
    at = λ w h. (keeps w h (read_claims cs) refl, Returns-Anything _);
  }
    where
      keeps :
          (w : World)
          → IsConsistent w.db
          → (o : Option (Result AuthPayload)) → read_claims cs ≡ o
          → IsConsistent (admit v request (accepted cs) w).1.db
      keeps w h none q = ground (arith, q)
      keeps w h (some (ok payload)) q =
          ground (arith, q, ((k (record request { auth_payload = some payload })).at w h).0)
      keeps w h (some (err x)) q = ground (arith, q)

  auth-IsSafe :
      (jwt : PyJwt) (service : JwtTokenService) (now : ℕ) → IsSafe (auth jwt service now v)
  unfolding auth
  auth-IsSafe jwt service now request = record {
    at = λ w h.
        let header = get_header "authorization" request.headers in
        (
          ground (
            arith,
            ((k request).at w h).0,
            ((admit-IsSafe request (decode jwt service now true (suffix 7 header))).at w h).0,
          ),
          Returns-Anything _,
        );
  }

load_middleware-IsSafe :
    (f : Framework) (jwt : PyJwt) (service : JwtTokenService) (now : ℕ) (v : View)
    → IsSafe v
    → IsSafe (load_middleware f jwt service now v)
unfolding load_middleware
load_middleware-IsSafe f jwt service now v k = exception_handler-IsSafe _ (
    cache_control-IsSafe _
      (auth-IsSafe _ (convert-IsSafe f _ (dispatch-IsSafe f v k)) jwt service now))

-- The world after requests that are served one after another.
unfoldable pub serve_all : Framework → Deployment → List Arrival → World → World
serve_all f d [] w = w
serve_all f d (a ∷ rest) w = serve_all f d rest (serve f d a w).1

-- Whatever the framework makes of bodies and of exceptions: if the password function of the
-- deployment gives hashes of 60 bytes, then serving any requests one after another on the Django
-- stack, with any tokens, clocks and fresh ids, keeps consistent tables consistent.
pub serve_all-keeps_IsConsistent :
    (f : Framework) (d : Deployment) (arrivals : List Arrival) (w : World)
    → IsHasher d.hash
    → IsConsistent w.db
    → IsConsistent (serve_all f d arrivals w).db
unfolding serve_all serve
serve_all-keeps_IsConsistent f d [] w k h = h
serve_all-keeps_IsConsistent f d (a ∷ rest) w k h =
    serve_all-keeps_IsConsistent f d rest (serve f d a w).1 k
      ((load_middleware-IsSafe f d.jwt d.service a.seconds (view_of f d a.draws a.new_id a.call)
          (view_of-IsSafe f d a.draws a.new_id a.call k) a.request).at
        w h).0
