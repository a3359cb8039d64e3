-- ===== src/Http/Keeps/Service.antt =====
-- The invariant of the tables under the application, middlewares and all.
use fast_api_ddd_template.Base.{ℕ, ◌≡◌, refl, arith, true, Option, none, some, List, [], ◌∷◌}
use fast_api_ddd_template.Domain.Errors.{Result, ok, err}
use fast_api_ddd_template.Domain.Uuid.{suffix}
use fast_api_ddd_template.Domain.Values.{UserId}
use fast_api_ddd_template.Database.Invariant.{IsConsistent}
use fast_api_ddd_template.Database.Ensures.{Anything}
use fast_api_ddd_template.World.{World, Action}
use fast_api_ddd_template.World.Preserves.{Preserves, Returns-Anything}
use fast_api_ddd_template.Auth.{AuthPayload}
use fast_api_ddd_template.Security.Jwt.{
  PyJwt, JwtTokenService, Outcome, decode, accepted, token_expired, token_invalid,
}
use fast_api_ddd_template.Http.Message.{Request, Reply, get_header}
use fast_api_ddd_template.Http.AuthRoutes.{Draws}
use fast_api_ddd_template.Http.Middleware.{
  Endpoint, with_exception_handler, catch_unhandled, payload_of, admit, cache_control,
  check_user_auth, app,
}
use fast_api_ddd_template.Http.Routes.{Call, Deployment, handle}
use fast_api_ddd_template.Database.Invariant.UserMethods.{IsHasher}
use fast_api_ddd_template.Http.Keeps.Handlers.{handle-Preserves}

-- Whatever the request, the endpoint keeps the invariant.
abbrev IsSafe : Endpoint → Type 0
IsSafe e = (request : Request) → Preserves Anything (e request)

with_exception_handler-IsSafe : (e : Endpoint) → IsSafe e → IsSafe (with_exception_handler e)
with_exception_handler-IsSafe e k request = record {
  at = λ w h. (((k request).at w h).0, Returns-Anything _);
}

catch_unhandled-IsSafe : (e : Endpoint) → IsSafe e → IsSafe (catch_unhandled e)
unfolding catch_unhandled
catch_unhandled-IsSafe e k request = record {
  at = λ w h. (ground (arith, ((k request).at w h).0), Returns-Anything _);
}

cache_control-IsSafe : (e : Endpoint) → IsSafe e → IsSafe (cache_control e)
unfolding cache_control
cache_control-IsSafe e k request = record {
  at = λ w h. (ground (arith, ((k request).at w h).0), Returns-Anything _);
}

-- A request goes on with a payload, or does not.
admit-IsSafe :
    (e : Endpoint)
    → IsSafe e
    → (request : Request) (o : Outcome) → Preserves Anything (admit e request o)
admit-IsSafe e k request token_expired = record { at = λ w h. (h, tt) }
admit-IsSafe e k request token_invalid = record { at = λ w h. (h, tt) }
admit-IsSafe e k request (accepted cs) = record {
  at = λ w h. (keeps w h (payload_of cs) refl, Returns-Anything _);
}
  where
    keeps :
        (w : World)
        → IsConsistent w.db
        → (o : Option (Result AuthPayload)) → payload_of cs ≡ o
        → IsConsistent (admit e request (accepted cs) w).1.db
    keeps w h none q = ground (arith, q)
    keeps w h (some (ok payload)) q =
        ground (arith, q, ((k (record request { auth_payload = some payload })).at w h).0)
    keeps w h (some (err x)) q = ground (arith, q)

module _ (jwt : PyJwt) (service : JwtTokenService) (now : ℕ) where
  check_user_auth-IsSafe : (e : Endpoint) → IsSafe e → IsSafe (check_user_auth jwt service now e)
  unfolding check_user_auth
  check_user_auth-IsSafe e k request = record {
    at = λ w h.
        let header = get_header "authorization" request.headers in
        (
          ground (
            arith,
            ((k request).at w h).0,
            ((admit-IsSafe e k request (decode jwt service now true (suffix 7 header))).at w h).0,
          ),
          Returns-Anything _,
        );
  }

  app-IsSafe : (e : Endpoint) → IsSafe e → IsSafe (app jwt service now e)
  unfolding app
  app-IsSafe e k =
      cache_control-IsSafe _
        (check_user_auth-IsSafe _ (catch_unhandled-IsSafe _ (with_exception_handler-IsSafe e k)))

-- A request as it arrives: the call that it is routed to, what its handler draws, and the time,
-- in seconds, at which its token is decoded.
pub record Arrival : Type 0 where
  pub request : Request
  pub call : Call
  pub draws : Draws
  pub new_id : UserId
  pub seconds : ℕ

abbrev pub serve : Deployment → Arrival → Action Reply
serve d a = app d.jwt d.service a.seconds (handle d a.draws a.new_id a.call) a.request

-- The world after requests that are served one after another.
unfoldable pub serve_all : Deployment → List Arrival → World → World
serve_all d [] w = w
serve_all d (a ∷ rest) w = serve_all d rest (serve d a w).1

-- If the password function of the deployment gives hashes of 60 bytes, then whatever requests
-- are served, in whatever order and with whatever tokens, clocks and fresh ids, tables that are
-- consistent stay consistent: ids and usernames unique, every row readable by the value objects,
-- session ids and token hashes unique, and every session owned by a user of the table.
pub serve_all-IsConsistent :
    (d : Deployment) (arrivals : List Arrival) (w : World)
    → IsHasher d.hash
    → IsConsistent w.db
    → IsConsistent (serve_all d arrivals w).db
unfolding serve_all
serve_all-IsConsistent d [] w k h = h
serve_all-IsConsistent d (a ∷ rest) w k h =
    let e = handle d a.draws a.new_id a.call in
    let safe : IsSafe e = λ request. handle-Preserves d a.draws a.new_id a.call request k in
    serve_all-IsConsistent d rest (serve d a w).1 k
      (((app-IsSafe d.jwt d.service a.seconds e safe a.request).at w h).0)
