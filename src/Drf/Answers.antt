-- ===== src/Drf/Answers.antt =====
-- What a client of the Django stack is answered.
use package.text.Mathlib.Text.{starts_with}
use fast_api_ddd_template.Base.{
  ℕ, ◌≡◌, ◌≢◌, refl, arith, true, ◌⊎◌, inl, inr, Bool-cases, Option, none, some, [], ◌∷◌, ◌++◌,
  String,
}
use fast_api_ddd_template.Domain.Errors.{
  Error, Result, ok, err, api_exception, conflict_error, ApiException,
}
use fast_api_ddd_template.World.{World, Action, unhandled_exception}
use fast_api_ddd_template.Auth.{AuthPayload}
use fast_api_ddd_template.Security.Jwt.{
  PyJwt, JwtTokenService, Claims, Outcome, decode, accepted, token_expired, token_invalid,
}
use fast_api_ddd_template.Application.State.{State}
use fast_api_ddd_template.Application.Presenter.{Presenter, text}
use fast_api_ddd_template.Http.Message.{Request, Reply, Body, json, detail, get_header}
use fast_api_ddd_template.Http.Guards.{bearer_token}
use fast_api_ddd_template.Http.Presenting as Http
use fast_api_ddd_template.Http.Middleware.{answer}
use fast_api_ddd_template.Drf.Framework.{Framework, View, dispatch, convert_exception_to_response}
use fast_api_ddd_template.Drf.Presenting as Drf
use fast_api_ddd_template.Drf.Middleware.{
  exception_handler, cache_control, set_policy, auth, admit, is_public, read_claims, not_authorized,
  load_middleware,
}

-- The application without ExceptionHandlerMiddleware.
abbrev pub without_handler : Framework → PyJwt → JwtTokenService → ℕ → View → View
without_handler f jwt service now view =
    cache_control (auth jwt service now (convert_exception_to_response f (dispatch f view)))

-- What ExceptionHandlerMiddleware does with an exception, in the world where it is raised.
abbrev pub handled : Error → World → Result Reply × World
handled x w = (
  ok (json 500 (detail "Internal server error")),
  record w { log = w.log ++ unhandled_exception x ∷ [] },
)

-- The handler answers the request, and does not raise.
abbrev pub Replies : View → Request → World → Type 0
Replies v request w = (reply : Reply) × ((v request w).0 ≡ ok reply)

converted :
    (f : Framework) (v : View) (request : Request) (w : World)
    → Replies (convert_exception_to_response f v) request w
unfolding convert_exception_to_response
converted f v request w = go (v request w).0 refl
  where
    go :
        (r : Result Reply)
        → (v request w).0 ≡ r
        → Replies (convert_exception_to_response f v) request w
    go (ok reply) e = (reply, ground (arith, e))
    go (err x) e = (f.convert_exception x, ground (arith, e))

admit-answers :
    (v : View) (request : Request) (w : World) (o : Outcome)
    → ((r : Request) → Replies v r w)
    → ((reply : Reply) × ((admit v request o w).0 ≡ ok reply))
      ⊎ ((cs : Claims) × (x : Error) × (o ≡ accepted cs)
          × (read_claims cs ≡ some (err x))
          × (admit v request o w ≡ (err x, w)))
admit-answers v request w token_expired k = inl (not_authorized, refl)
admit-answers v request w token_invalid k = inl (not_authorized, refl)
admit-answers v request w (accepted cs) k = paid (read_claims cs) refl
  where
    paid :
        (o : Option (Result AuthPayload))
        → read_claims cs ≡ o
        → ((reply : Reply) × ((admit v request (accepted cs) w).0 ≡ ok reply))
          ⊎ ((cs' : Claims) × (x : Error) × (accepted cs ≡ accepted cs')
              × (read_claims cs' ≡ some (err x))
              × (admit v request (accepted cs) w ≡ (err x, w)))
    paid none q = inl (not_authorized, ground (arith, q))
    paid (some (ok payload)) q =
        let (reply, h) = k (record request { auth_payload = some payload }) in
        inl (reply, ground (arith, q, h))
    paid (some (err x)) q = inr (cs, x, refl, q, ground (arith, q))

cache_control-ok :
    (v : View) (request : Request) (w : World)
    → Replies v request w
    → Replies (cache_control v) request w
unfolding cache_control
cache_control-ok v request w (reply, h) = (set_policy request reply, ground (arith, h))

cache_control-err :
    (v : View) (request : Request) (w : World) (x : Error)
    → v request w ≡ (err x, w)
    → cache_control v request w ≡ (err x, w)
unfolding cache_control
cache_control-err v request w x h = ground (arith, h)

exception_handler-ok :
    (v : View) (request : Request) (w : World)
    → Replies v request w
    → exception_handler v request w ≡ v request w
unfolding exception_handler
exception_handler-ok v request w (reply, h) = ground (arith, h)

exception_handler-err :
    (v : View) (request : Request) (w : World) (x : Error)
    → v request w ≡ (err x, w)
    → exception_handler v request w ≡ handled x w
unfolding exception_handler
exception_handler-err v request w x h = ground (arith, h)

module _ (jwt : PyJwt) (service : JwtTokenService) (now : ℕ) where
  auth-answers :
      (v : View) (request : Request) (w : World)
      → ((r : Request) → Replies v r w)
      → Replies (auth jwt service now v) request w
        ⊎ ((cs : Claims) × (x : Error) × (decode jwt service now true (bearer_token request)
              ≡ accepted cs)
            × (read_claims cs ≡ some (err x))
            × (auth jwt service now v request w ≡ (err x, w)))
  unfolding auth
  auth-answers v request w k = elim (Bool-cases (is_public request)) [
    | inl p ↦ rw p (inl (k request))
    | inr p ↦
        rw p
          (elim (Bool-cases (starts_with (get_header "authorization" request.headers) "Bearer ")) [
            | inl b ↦
                rw b
                  (admit-answers v request w (decode jwt service now true (bearer_token request)) k)
            | inr b ↦ rw b (inl (not_authorized, refl))
          ])
  ]

  -- Whatever the view and the framework, one of two things holds of the application on Django.
  -- Either it answers as it would without ExceptionHandlerMiddleware, with the same tables and the
  -- same log, so that this middleware does not log what a view raises, and the answer is the one
  -- that the framework and Django give. Or a token is accepted whose claims name the user or the
  -- session by a text that `UUID` refuses: then ExceptionHandlerMiddleware logs that error and
  -- answers 500, and the tables are as they were.
  pub load_middleware-answers :
      (f : Framework) (v : View) (request : Request) (w : World)
      → (Replies (without_handler f jwt service now v) request w
          × (load_middleware f jwt service now v request w
              ≡ without_handler f jwt service now v request w))
        ⊎ ((cs : Claims) × (x : Error) × (decode jwt service now true (bearer_token request)
              ≡ accepted cs)
            × (read_claims cs ≡ some (err x))
            × (load_middleware f jwt service now v request w ≡ handled x w))
  unfolding load_middleware
  load_middleware-answers f v request w =
      let inside : View = convert_exception_to_response f (dispatch f v) in
      let checked : View = auth jwt service now inside in
      elim (auth-answers inside request w (λ r. converted f (dispatch f v) r w)) [
        | inl h ↦
            let k = cache_control-ok checked request w h in
            inl (k, exception_handler-ok (cache_control checked) request w k)
        | inr (cs, x, d, q, h) ↦ inr (
          cs,
          x,
          d,
          q,
          exception_handler-err (cache_control checked) request w x
              (cache_control-err checked request w x h),
        )
      ]

-- The statuses of Django REST framework's exceptions. A failed authentication is a 403 where no
-- authentication class is configured, as in settings.py.
abbrev pub api_status : ApiException → ℕ
api_status ApiException.parse_error = 400
api_status ApiException.authentication_failed = 403
api_status ApiException.permission_denied = 403
api_status ApiException.not_found = 404
api_status ApiException.validation_error = 400

-- What the documentation of Django REST framework and of Django says of exceptions: the
-- framework's own are answered with their status, an exception of the program is let pass, and
-- Django answers it with 500.
pub record IsDocumented (f : Framework) : Type 0 where
  pub handles :
      (kind : ApiException) (m : String)
      → (reply : Reply) × (f.handle_exception (api_exception kind m) ≡ some reply)
        × (reply.status ≡ api_status kind)
  pub passes : (m : String) → f.handle_exception (conflict_error m) ≡ none
  pub converts : (m : String) → (f.convert_exception (conflict_error m)).status ≡ 500

-- The status that each refusal of a presenter has on FastAPI, and on Django.
abbrev pub http_status : State → ℕ
http_status State.ok = 200
http_status State.bad_request = 400
http_status State.domain_error = 422
http_status State.unauthorized = 401
http_status State.forbidden = 403
http_status State.conflict = 409
http_status State.not_found = 404

abbrev pub drf_status : State → ℕ
drf_status State.ok = 200
drf_status State.bad_request = 400
drf_status State.domain_error = 400
drf_status State.unauthorized = 403
drf_status State.forbidden = 403
drf_status State.conflict = 500
drf_status State.not_found = 404

-- The reply to a request, as a status; 0 where the application raises.
abbrev pub status_of : Result Reply → ℕ
status_of (ok r) = r.status
status_of (err e) = 0

module _ {D : Type 0} where
  -- A presenter that refuses.
  abbrev pub refused : State → String → Presenter D
  refused s m = record { state = some s; response = some (text m) }

  -- The handler that ends in a presenter, on FastAPI and on Django.
  abbrev pub on_fastapi : ℕ → (D → Body) → Presenter D → Result Reply
  on_fastapi status body p = answer (Http.respond status body p)

  abbrev pub on_django : Framework → ℕ → (D → Body) → Presenter D → Request → Action Reply
  on_django f status body p =
      convert_exception_to_response f (dispatch f (λ _ w. (Drf.respond status body p, w)))

  -- If the framework does with exceptions what it documents, a refusal of a use case has on
  -- FastAPI and on Django the statuses of the two tables: 400, 403 and 404 are the same, an
  -- unauthorized request is 401 on FastAPI and 403 on Django, a domain error 422 and 400, and a
  -- conflict 409 on FastAPI and 500 on Django.
  pub refused-status :
      (f : Framework) (status : ℕ) (body : D → Body) (s : State) (m : String) (request : Request)
      (w : World)
      → IsDocumented f
      → s ≢ State.ok
      → (status_of (on_fastapi status body (refused s m)) ≡ http_status s)
        × (status_of (on_django f status body (refused s m) request w).0 ≡ drf_status s)
  unfolding Http.respond Http.raise_for_presenter_400_state Drf.respond
      Drf.raise_for_presenter_state Drf.raise_for_state dispatch convert_exception_to_response
  refused-status f status body State.ok m request w d n = absurd (n refl)
  refused-status f status body State.conflict m request w d n =
      (refl, ground (arith, d.passes m, d.converts m))
  refused-status f status body State.bad_request m request w d n =
      (refl, ground (arith, d.handles ApiException.parse_error m))
  refused-status f status body State.domain_error m request w d n =
      (refl, ground (arith, d.handles ApiException.validation_error m))
  refused-status f status body State.unauthorized m request w d n =
      (refl, ground (arith, d.handles ApiException.authentication_failed m))
  refused-status f status body State.forbidden m request w d n =
      (refl, ground (arith, d.handles ApiException.permission_denied m))
  refused-status f status body State.not_found m request w d n =
      (refl, ground (arith, d.handles ApiException.not_found m))
