-- ===== src/Http/Guards.antt =====
-- The middlewares of main.py around an endpoint that is not known.
use fast_api_ddd_template.Base.{
  ℕ, ◌≡◌, ◌≢◌, refl, arith, Bool, true, false, ◌⊎◌, inl, inr, Bool-cases, Option, none, some,
  String, if◌then◌else◌, ap, ◌∙◌,
}
use text.Mathlib.Text.{starts_with}
use fast_api_ddd_template.Domain.Errors.{Error, Result, ok, err}
use fast_api_ddd_template.Domain.Uuid.{suffix}
use fast_api_ddd_template.World.{World}
use fast_api_ddd_template.Auth.{AuthPayload}
use fast_api_ddd_template.Security.Jwt.{
  PyJwt, JwtTokenService, Claims, Outcome, decode, accepted, token_expired, token_invalid,
}
use fast_api_ddd_template.Http.Message.{Request, Reply, json, detail, get_header}
use fast_api_ddd_template.Http.Middleware.{
  Endpoint, with_exception_handler, catch_unhandled, is_public, payload_of, not_authorized, admit,
  is_excluded, cache_policy, cache_control, check_user_auth, app,
}

-- The token that a request carries.
abbrev pub bearer_token : Request → String
bearer_token request = suffix 7 (get_header "authorization" request.headers)

-- A reply of an endpoint, as the innermost middleware makes it.
catch_unhandled-ok :
    (e : Endpoint) (request : Request) (w : World)
    → (reply : Reply) × ((catch_unhandled e request w).0 ≡ ok reply)
unfolding catch_unhandled
catch_unhandled-ok e request w = replied (e request w) refl
  where
    replied :
        (x : Result Reply × World)
        → e request w ≡ x
        → (reply : Reply) × ((catch_unhandled e request w).0 ≡ ok reply)
    replied (ok reply, v) h = (reply, ground (arith, h))
    replied (err x, v) h = (json 500 (detail "Internal server error"), ground (arith, h))

-- What the cache policy makes of a result.
abbrev cached : Request → Result Reply → Result Reply
cached request (ok reply) = ok (cache_policy request reply)
cached request (err e) = err e

cache_control-cached :
    (e : Endpoint) (request : Request) (w : World) (x : Result Reply × World)
    → e request w ≡ x
    → cache_control e request w ≡ (cached request x.0, x.1)
unfolding cache_control
cache_control-cached e request w (ok reply, v) h = ground (arith, h)
cache_control-cached e request w (err x, v) h = ground (arith, h)

-- The policy leaves a refusal as it is.
cache_policy-not_authorized :
    (request : Request) → cache_policy request not_authorized ≡ not_authorized
unfolding cache_policy
cache_policy-not_authorized request = elim (Bool-cases (is_excluded request.path)) [
  | inl t ↦ rw t refl
  | inr t ↦ rw t refl
]

module _ (jwt : PyJwt) (service : JwtTokenService) (now : ℕ) where
  check_user_auth-refused :
      (e : Endpoint) (request : Request) (w : World)
      → is_public request ≡ false
      → ((cs : Claims) → decode jwt service now true (bearer_token request) ≢ accepted cs)
      → check_user_auth jwt service now e request w ≡ (ok not_authorized, w)
  unfolding check_user_auth
  check_user_auth-refused e request w p n = rw p (
      checked (starts_with (get_header "authorization" request.headers) "Bearer ")
        (decode jwt service now true (bearer_token request)) refl)
    where
      checked :
          (b : Bool) (o : Outcome)
          → decode jwt service now true (bearer_token request) ≡ o
          → (if b then admit e request o else (λ (v : World). (ok not_authorized, v))) w
            ≡ (ok not_authorized, w)
      checked false o q = refl
      checked true token_expired q = refl
      checked true token_invalid q = refl
      checked true (accepted cs) q = absurd (n cs q)

  -- A request that is not public, and whose token the token service does not accept, is answered
  -- with 401, whatever the endpoint; no table and no record of the log changes.
  pub app-unauthenticated :
      (endpoint : Endpoint) (request : Request) (w : World)
      → is_public request ≡ false
      → ((cs : Claims) → decode jwt service now true (bearer_token request) ≢ accepted cs)
      → app jwt service now endpoint request w ≡ (ok not_authorized, w)
  unfolding app
  app-unauthenticated endpoint request w p n =
      let inner =
        check_user_auth jwt service now (catch_unhandled (with_exception_handler endpoint)) in
      cache_control-cached inner request w _
        (check_user_auth-refused (catch_unhandled (with_exception_handler endpoint)) request w p n)
      ∙ ap (λ (r : Reply). (ok r, w)) (cache_policy-not_authorized request)

  admit-answers :
      (e : Endpoint) (request : Request) (w : World) (o : Outcome)
      → ((r : Request) → (reply : Reply) × ((e r w).0 ≡ ok reply))
      → ((reply : Reply) × ((admit e request o w).0 ≡ ok reply))
        ⊎ ((cs : Claims) × (x : Error) × (o ≡ accepted cs)
            × (payload_of cs ≡ some (err x))
            × ((admit e request o w).0 ≡ err x))
  admit-answers e request w token_expired k = inl (not_authorized, refl)
  admit-answers e request w token_invalid k = inl (not_authorized, refl)
  admit-answers e request w (accepted cs) k = paid (payload_of cs) refl
    where
      paid :
          (o : Option (Result AuthPayload))
          → payload_of cs ≡ o
          → ((reply : Reply) × ((admit e request (accepted cs) w).0 ≡ ok reply))
            ⊎ ((cs' : Claims) × (x : Error) × (accepted cs ≡ accepted cs')
                × (payload_of cs' ≡ some (err x))
                × ((admit e request (accepted cs) w).0 ≡ err x))
      paid none q = inl (not_authorized, ground (arith, q))
      paid (some (ok payload)) q =
          let (reply, h) = k (record request { auth_payload = some payload }) in
          inl (reply, ground (arith, q, h))
      paid (some (err x)) q = inr (cs, x, refl, q, ground (arith, q))

  check_user_auth-answers :
      (e : Endpoint) (request : Request) (w : World)
      → ((r : Request) → (reply : Reply) × ((e r w).0 ≡ ok reply))
      → ((reply : Reply) × ((check_user_auth jwt service now e request w).0 ≡ ok reply))
        ⊎ ((cs : Claims) × (x : Error) × (decode jwt service now true (bearer_token request)
              ≡ accepted cs)
            × (payload_of cs ≡ some (err x))
            × ((check_user_auth jwt service now e request w).0 ≡ err x))
  unfolding check_user_auth
  check_user_auth-answers e request w k = elim (Bool-cases (is_public request)) [
    | inl p ↦ rw p (inl (k request))
    | inr p ↦
        rw p
          (elim (Bool-cases (starts_with (get_header "authorization" request.headers) "Bearer ")) [
            | inl b ↦
                rw b
                  (admit-answers e request w (decode jwt service now true (bearer_token request)) k)
            | inr b ↦ rw b (inl (not_authorized, refl))
          ])
  ]

  -- The application answers every request, whatever the endpoint raises, except where a token is
  -- accepted whose claims name the user or the session by a text that `UUID` refuses: then that
  -- error leaves the application.
  pub app-answers :
      (endpoint : Endpoint) (request : Request) (w : World)
      → ((reply : Reply) × ((app jwt service now endpoint request w).0 ≡ ok reply))
        ⊎ ((cs : Claims) × (x : Error) × (decode jwt service now true (bearer_token request)
              ≡ accepted cs)
            × (payload_of cs ≡ some (err x))
            × ((app jwt service now endpoint request w).0 ≡ err x))
  unfolding app
  app-answers endpoint request w =
      let inside = catch_unhandled (with_exception_handler endpoint) in
      let inner = check_user_auth jwt service now inside in
      let c = cache_control-cached inner request w (inner request w) refl in
      elim (check_user_auth-answers inside request w
        (λ r. catch_unhandled-ok (with_exception_handler endpoint) r w)) [
          | inl (reply, h) ↦
              inl (cache_policy request reply, ap (λ x. x.0) c ∙ ap (cached request) h)
          | inr (cs, x, d, q, h) ↦ inr (cs, x, d, q, ap (λ x. x.0) c ∙ ap (cached request) h)
        ]
