-- ===== src/Drf/Middleware.antt =====
-- app/interface/drf/middleware.py: the three middlewares, in the order of MIDDLEWARE in
-- settings.py. Django wraps the view and every middleware by `convert_exception_to_response`. The
-- instances of these classes are no coroutine functions (`__call__` is, but nothing marks the
-- instance), so around them the wrapper takes its synchronous branch, which returns the coroutine
-- before it runs and converts nothing. Only around the view, a coroutine method of the handler, does
-- it convert what is raised.
use text.Mathlib.Text.{starts_with}
use fast_api_ddd_template.Base.{
  ℕ, Bool, true, not, ◌&&◌, ◌||◌, Option, none, some, List, [], ◌∷◌, String, ◌==◌, ltb, leb, str_eq,
  exists, concat, if◌then◌else◌,
}
use fast_api_ddd_template.Domain.Errors.{Result, ok, err, ◌>>=◌}
use fast_api_ddd_template.Domain.Uuid.{suffix, parse_uuid}
use fast_api_ddd_template.World
use fast_api_ddd_template.World.{World, Action, unhandled_exception, pure, lift}
use fast_api_ddd_template.Auth.{AuthPayload}
use fast_api_ddd_template.Security.Jwt
use fast_api_ddd_template.Security.Jwt.{
  PyJwt, JwtTokenService, Claims, Claim, Outcome, decode, accepted, token_expired, token_invalid,
}
use fast_api_ddd_template.Http.Message.{Request, Reply, json, detail, has_header, get_header}
use fast_api_ddd_template.Drf.Framework.{Framework, View, dispatch, convert_exception_to_response}

-- `ExceptionHandlerMiddleware.__call__`
unfoldable pub exception_handler : View → View
exception_handler get_response request w =
    let (r, w') = get_response request w in
    elim r [
      | ok reply ↦ (ok reply, w')
      | err e ↦
          World.◌>>◌ (World.write_log (unhandled_exception e))
            (pure (json 500 (detail "Internal server error"))) w'
    ]

-- `PUBLIC_PREFIXES`
unfoldable pub public_prefixes : List String
public_prefixes =
    "/health" ∷ "/docs" ∷ "/openapi.json" ∷ "/redoc" ∷ "/auth/login" ∷ "/auth/refresh" ∷ []

unfoldable pub is_public : Request → Bool
unfolding public_prefixes
is_public request =
    str_eq request.method "OPTIONS" || exists (λ p. starts_with request.path p) public_prefixes

abbrev pub not_authorized : Reply
not_authorized = json 401 (detail "Not authorized.")

-- The claim, where it is a text and not empty.
abbrev non_empty_text : Option Claim → Option String
non_empty_text (some (Claim.text s)) = if str_eq s "" then none else some s
non_empty_text _ = none

abbrev payload : String → String → String → Result AuthPayload
payload user_id sid role = do
  u ← parse_uuid user_id
  s ← parse_uuid sid
  ok (record { user_id = u; session_id = s; role = role })

-- The conditions on the claims, and the payload; none where a condition fails.
unfoldable pub read_claims : Claims → Option (Result AuthPayload)
read_claims cs = elim (non_empty_text (Jwt.get "sub" cs)) [
  | none ↦ none
  | some user_id ↦ elim (non_empty_text (Jwt.get "sid" cs)) [
    | none ↦ none
    | some sid ↦ elim (non_empty_text (Jwt.get "role" cs)) [
      | none ↦ none
      | some user_role ↦ some (payload user_id sid user_role)
    ]
  ]
]

abbrev pub admit : View → Request → Outcome → Action Reply
admit get_response request token_expired = pure not_authorized
admit get_response request token_invalid = pure not_authorized
admit get_response request (accepted cs) = elim (read_claims cs) [
  | none ↦ pure not_authorized
  | some r ↦ World.◌>>=◌ (lift r) λ p. get_response (record request { auth_payload = some p })
]

-- `AuthMiddleware.__call__`
unfoldable pub auth : PyJwt → JwtTokenService → ℕ → View → View
unfolding is_public read_claims
auth jwt service now get_response request =
    if is_public request
    then get_response request
    else let header = get_header "authorization" request.headers in
      if starts_with header "Bearer "
      then admit get_response request (decode jwt service now true (suffix 7 header))
      else pure not_authorized

-- `EXCLUDED_PREFIXES`
abbrev pub excluded_prefixes : List String
excluded_prefixes = "/docs" ∷ "/redoc" ∷ "/openapi.json" ∷ "/health" ∷ "/metrics" ∷ []

abbrev pub is_excluded : String → Bool
is_excluded path = exists (λ p. str_eq path p || starts_with path (concat p "/")) excluded_prefixes

abbrev pub with_policy : String → Reply → Reply
with_policy v r = record r { headers = ("cache-control", v) ∷ r.headers }

-- The policy for a response. `"Set-Cookie" in response` reads the headers, which do not have what
-- `set_cookie` set. The method is in upper case, as `method.upper()` makes it.
unfoldable pub set_policy : Request → Reply → Reply
set_policy request r =
    if has_header "cache-control" r.headers
    then r
    else if is_excluded request.path
    then r
    else if not (leb 200 r.status && ltb r.status 300 || r.status == 304)
    then r
    else if has_header "authorization" request.headers
        || request.has_cookies
        || has_header "set-cookie" r.headers
    then with_policy "no-store" r
    else if str_eq request.method "GET" || str_eq request.method "HEAD"
    then with_policy "private, max-age=60" r
    else with_policy "no-store" r

-- `CacheControlMiddleware.__call__`
unfoldable pub cache_control : View → View
unfolding set_policy
cache_control get_response request =
    World.◌>>=◌ (get_response request) λ reply. pure (set_policy request reply)

-- The handler that Django builds from MIDDLEWARE, the first one outermost.
unfoldable pub load_middleware : Framework → PyJwt → JwtTokenService → ℕ → View → View
unfolding exception_handler cache_control auth dispatch convert_exception_to_response
load_middleware f jwt service now view =
    exception_handler
      (cache_control (auth jwt service now (convert_exception_to_response f (dispatch f view))))
