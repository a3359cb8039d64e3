-- ===== src/Http/Middleware.antt =====
-- app/interface/http/main.py: the three middlewares, and the stack that they form, the one added
-- last outermost. The endpoint that FastAPI routes a request to, PyJWT and the clock are given.
use text.Mathlib.Text.{starts_with}
use fast_api_ddd_template.Base.{
  ℕ, Bool, true, not, ◌&&◌, ◌||◌, Option, none, some, List, [], ◌∷◌, String, ◌==◌, ltb, leb, str_eq,
  exists, concat, if◌then◌else◌,
}
use fast_api_ddd_template.Domain.Errors.{Result, ok, err, http_exception, ◌>>=◌}
use fast_api_ddd_template.Domain.Uuid.{suffix, parse_uuid}
use fast_api_ddd_template.World
use fast_api_ddd_template.World.{World, Action, unhandled_exception, pure, lift}
use fast_api_ddd_template.Auth.{AuthPayload}
use fast_api_ddd_template.Security.Jwt
use fast_api_ddd_template.Security.Jwt.{
  PyJwt, JwtTokenService, Claims, Claim, Outcome, decode, accepted, token_expired, token_invalid,
}
use fast_api_ddd_template.Http.Message.{Request, Reply, json, detail, has_header, get_header}

abbrev pub Endpoint : Type 0
Endpoint = Request → Action Reply

-- FastAPI's handler of `HTTPException`, which stands inside the middlewares.
abbrev pub answer : Result Reply → Result Reply
answer (err (http_exception status m headers)) =
    ok (record { status = status; body = detail m; headers = headers; cookies = [] })
answer r = r

abbrev pub with_exception_handler : Endpoint → Endpoint
with_exception_handler endpoint request w = let (r, w') = endpoint request w in (answer r, w')

-- `catch_unhandled_exceptions_middleware`
unfoldable pub catch_unhandled : Endpoint → Endpoint
catch_unhandled call_next request w =
    let (r, w') = call_next request w in
    elim r [
      | ok reply ↦ (ok reply, w')
      | err e ↦
          World.◌>>◌ (World.write_log (unhandled_exception e))
            (pure (json 500 (detail "Internal server error"))) w'
    ]

abbrev pub public_prefixes : List String
public_prefixes =
    "/docs" ∷ "/openapi.json" ∷ "/redoc" ∷ "/health" ∷ "/auth/login" ∷ "/auth/refresh" ∷ []

-- The requests that need no token.
abbrev pub is_public : Request → Bool
is_public request =
    str_eq request.method "OPTIONS" || exists (λ p. starts_with request.path p) public_prefixes

-- A claim that is a text and not empty.
abbrev pub text_claim : String → Claims → Option String
text_claim name cs = elim (Jwt.get name cs) [
  | some (Claim.text s) ↦ if str_eq s "" then none else some s
  | _ ↦ none
]

abbrev make_payload : String → String → String → Result AuthPayload
make_payload sub sid role = do
  user_id ← parse_uuid sub
  session_id ← parse_uuid sid
  ok (record { user_id = user_id; session_id = session_id; role = role })

-- The payload that the claims give, if all three are texts; `UUID` may raise.
unfoldable pub payload_of : Claims → Option (Result AuthPayload)
payload_of cs = elim (text_claim "sub" cs) [
  | none ↦ none
  | some sub ↦ elim (text_claim "sid" cs) [
    | none ↦ none
    | some sid ↦ elim (text_claim "role" cs) [
      | none ↦ none
      | some role ↦ some (make_payload sub sid role)
    ]
  ]
]

abbrev pub not_authorized : Reply
not_authorized = json 401 (detail "Not authorized.")

-- What the middleware makes of the token's claims.
abbrev pub admit : Endpoint → Request → Outcome → Action Reply
admit call_next request token_expired = pure not_authorized
admit call_next request token_invalid = pure not_authorized
admit call_next request (accepted cs) = elim (payload_of cs) [
  | none ↦ pure not_authorized
  | some r ↦
      World.◌>>=◌ (lift r) λ payload. call_next (record request { auth_payload = some payload })
]

abbrev pub excluded_prefixes : List String
excluded_prefixes = "/docs" ∷ "/redoc" ∷ "/openapi.json" ∷ "/health" ∷ "/metrics" ∷ []

abbrev pub is_excluded : String → Bool
is_excluded path = exists (λ p. str_eq path p || starts_with path (concat p "/")) excluded_prefixes

abbrev pub is_success : ℕ → Bool
is_success status = leb 200 status && ltb status 300 || status == 304

abbrev pub set_cache_control : String → Reply → Reply
set_cache_control v r = record r { headers = ("cache-control", v) ∷ r.headers }

-- The policy for a response that a handler gave. The method is in upper case, as ASGI has it.
unfoldable pub cache_policy : Request → Reply → Reply
cache_policy request r =
    if has_header "cache-control" r.headers
    then r
    else if is_excluded request.path
    then r
    else if not (is_success r.status)
    then r
    else if has_header "authorization" request.headers
        || request.has_cookies
        || has_header "set-cookie" r.headers
    then set_cache_control "no-store" r
    else if str_eq request.method "GET" || str_eq request.method "HEAD"
    then set_cache_control "private, max-age=60" r
    else set_cache_control "no-store" r

-- `cache_control_middleware`
unfoldable pub cache_control : Endpoint → Endpoint
unfolding cache_policy
cache_control call_next request =
    World.◌>>=◌ (call_next request) λ reply. pure (cache_policy request reply)

module _ (jwt : PyJwt) (service : JwtTokenService) (now : ℕ) where
  -- `check_user_auth_middleware`
  unfoldable pub check_user_auth : Endpoint → Endpoint
  unfolding payload_of
  check_user_auth call_next request =
      if is_public request
      then call_next request
      else let header = get_header "authorization" request.headers in
        if starts_with header "Bearer "
        then admit call_next request (decode jwt service now true (suffix 7 header))
        else pure not_authorized

  -- The application.
  unfoldable pub app : Endpoint → Endpoint
  unfolding cache_control check_user_auth catch_unhandled
  app endpoint = cache_control (check_user_auth (catch_unhandled (with_exception_handler endpoint)))
