-- ===== src/Tests/Drf.antt =====
-- Examples of the Django interface, behind a framework that does what its documentation says.
use fast_api_ddd_template.Base.{
  ◌≡◌, ◌≢◌, ◌⊎◌, true, false, refl, arith, Option, none, some, List, [], ◌∷◌, String, if◌then◌else◌,
}
use fast_api_ddd_template.Domain.Errors.{Error, Result, ok, err, api_exception, ApiException}
use fast_api_ddd_template.Database.Invariant.{IsConsistent}
use fast_api_ddd_template.Database.Invariant.UserMethods.{IsHasher}
use fast_api_ddd_template.Application.State.{State}
use fast_api_ddd_template.Http.Message.{Reply, json, detail, created_user}
use fast_api_ddd_template.Http.Middleware as Http
use fast_api_ddd_template.Domain.Errors.{not_authenticated_error, value_error}
use fast_api_ddd_template.World.{World}
use fast_api_ddd_template.Auth
use fast_api_ddd_template.DjangoOrm.Auth.{current_user}
use fast_api_ddd_template.DjangoOrm.Auth.Agrees.{current_user-agrees}
use fast_api_ddd_template.DjangoOrm.SessionRepo.Owners.{on_app_clock}
use fast_api_ddd_template.Http.Message.{Request, nothing}
use fast_api_ddd_template.Http.AuthRoutes
use fast_api_ddd_template.Drf.AuthViews as Views
use fast_api_ddd_template.Drf.Logout.{logout-agrees, logout-locks_out}
use fast_api_ddd_template.Security.Jwt.{PyJwt, Claim, Claims, Decoded, decode, accepted}
use fast_api_ddd_template.Http.Guards.{bearer_token}
use fast_api_ddd_template.Tests.Data.{root_payload}
use fast_api_ddd_template.Drf.Framework.{CharField, Input, Framework}
use fast_api_ddd_template.Drf.Middleware as Drf
use fast_api_ddd_template.Drf.Middleware.{load_middleware}
use fast_api_ddd_template.Drf.UserViews.{list_users}
use fast_api_ddd_template.Drf.Urls.{Call, Arrival}
use fast_api_ddd_template.Drf.Keeps.Service.{serve_all, serve_all-keeps_IsConsistent}
use fast_api_ddd_template.Drf.Mirrors.{in_headers, auth-agrees, policies-agree}
use fast_api_ddd_template.Drf.Answers.{
  Replies, handled, api_status, IsDocumented, without_handler, status_of, refused, on_fastapi,
  on_django, load_middleware-answers, refused-status,
}
use fast_api_ddd_template.Tests.Data.{
  two_accounts-IsConsistent, world, deployment, hash, draws, clocks, jwt, service, root_request,
  bare_request,
}

-- No length is checked: the value objects do it again.
abbrev run_validation : CharField → Input → Result (Option String)
run_validation field (Input.value s) = ok (some s)
run_validation field _ =
    if field.required
    then err (api_exception ApiException.validation_error "This field is required.")
    else ok none

abbrev handle_exception : Error → Option Reply
handle_exception (api_exception kind m) = some (json (api_status kind) (detail m))
handle_exception _ = none

abbrev framework : Framework
framework = record {
  run_validation = run_validation;
  handle_exception = handle_exception;
  convert_exception = λ e. json 500 (detail "Server Error (500)");
}

framework-IsDocumented : IsDocumented framework
framework-IsDocumented = record {
  handles = λ kind m. (json (api_status kind) (detail m), refl, refl);
  passes = λ m. refl;
  converts = λ m. refl;
}

hash-IsHasher : IsHasher hash
hash-IsHasher raw = refl

-- An administrator registers an account, and somebody logs in to it.
abbrev arrivals : List Arrival
arrivals =
    record {
      request = root_request;
      call =
          Call.create_user (Input.value "john_brown") (Input.value "hunter22") (Input.value "user");
      draws = draws;
      new_id = record { value = 3 };
      seconds = 1;
    }
    ∷ record {
      request = record bare_request { method = "POST"; path = "/auth/login" };
      call = Call.login (Input.value "john_brown") (Input.value "correct horse");
      draws = draws;
      new_id = record { value = 4 };
      seconds = 1;
    }
    ∷ []

serve_all-keeps_IsConsistent_example :
    IsConsistent (serve_all framework deployment arrivals world).db
serve_all-keeps_IsConsistent_example =
    serve_all-keeps_IsConsistent framework deployment arrivals world hash-IsHasher
      two_accounts-IsConsistent

auth-agrees_example :
    Drf.auth jwt service 1 (list_users clocks) root_request world
    ≡ Http.check_user_auth jwt service 1 (list_users clocks) root_request world
auth-agrees_example = auth-agrees jwt service 1 (list_users clocks) root_request world

-- A page that sets a cookie, for a reader without a token.
abbrev page : Request
page = record bare_request { method = "GET"; path = "/page"; has_cookies = false }

abbrev with_cookie : Reply
with_cookie = record (json 200 nothing) { cookies = ("seen", "seen=1; Path=/") ∷ [] }

is_kept : Drf.set_policy page with_cookie ≡ Drf.with_policy "private, max-age=60" with_cookie
unfolding Drf.set_policy
is_kept = refl

policies-agree_example :
    (in_headers (Drf.set_policy page with_cookie) ≡ Http.cache_policy page (in_headers with_cookie))
    ⊎ ((with_cookie.cookies ≢ [])
        × (Drf.set_policy page with_cookie ≡ Drf.with_policy "private, max-age=60" with_cookie)
        × (Http.cache_policy page (in_headers with_cookie)
            ≡ Http.set_cache_control "no-store" (in_headers with_cookie)))
policies-agree_example = policies-agree page with_cookie

-- A token that names its user by no UUID.
abbrev odd_claims : Claims
odd_claims =
    ("sub", Claim.text "root")
    ∷ ("sid", Claim.text "10")
    ∷ ("role", Claim.text "admin")
    ∷ ("exp", Claim.number 900)
    ∷ []

abbrev odd_jwt : PyJwt
odd_jwt = record jwt { decode = λ now options token key algorithm. Decoded.claims odd_claims }

is_logged :
    load_middleware framework odd_jwt service 1 (list_users clocks) root_request world
    ≡ handled (value_error "badly formed hexadecimal UUID string") world
unfolding load_middleware fast_api_ddd_template.Domain.Uuid.parse_uuid
    fast_api_ddd_template.Security.Jwt.decode
is_logged = refl

load_middleware-answers_example :
    (Replies (without_handler framework odd_jwt service 1 (list_users clocks)) root_request world
      × (load_middleware framework odd_jwt service 1 (list_users clocks) root_request world
          ≡ without_handler framework odd_jwt service 1 (list_users clocks) root_request world))
    ⊎ ((cs : Claims) × (x : Error) × (decode odd_jwt service 1 true (bearer_token root_request)
          ≡ accepted cs)
        × (Drf.read_claims cs ≡ some (err x))
        × (load_middleware framework odd_jwt service 1 (list_users clocks) root_request world
            ≡ handled x world))
load_middleware-answers_example =
    load_middleware-answers odd_jwt service 1 framework (list_users clocks) root_request world

conflict_is_no_success : State.conflict ≢ State.ok
conflict_is_no_success = λ e. absurd (ground (arith, e))

refused-status_example :
    (status_of (on_fastapi 201 created_user (refused State.conflict "Username taken")) ≡ 409)
    × (status_of
          (on_django framework 201 created_user
            (refused State.conflict "Username taken")
            root_request
            world).0
        ≡ 500)
refused-status_example =
    refused-status framework 201 created_user State.conflict "Username taken" root_request world
      framework-IsDocumented conflict_is_no_success

abbrev leaving : Request
leaving = record root_request { path = "/auth/logout"; auth_payload = some root_payload }

abbrev after_logout : World
after_logout = (Views.logout clocks leaving world).1

logs_out : Views.logout clocks leaving world ≡ (ok (json 204 nothing), after_logout)
unfolding Views.logout fast_api_ddd_template.DjangoOrm.UnitOfWork.with_repo
    fast_api_ddd_template.DjangoOrm.SessionRepo.revoke
logs_out = refl

logout-agrees_example :
    Views.logout clocks leaving world ≡ AuthRoutes.logout (on_app_clock clocks) leaving world
logout-agrees_example = logout-agrees clocks leaving world two_accounts-IsConsistent

logout-locks_out_example :
    (current_user clocks root_payload after_logout).0
    ≡ err (not_authenticated_error "Not authorized.")
logout-locks_out_example =
    logout-locks_out clocks clocks leaving root_payload root_payload world after_logout
      (json 204 nothing) two_accounts-IsConsistent refl refl logs_out

current_user-agrees_example :
    current_user clocks root_payload world
    ≡ Auth.current_user (on_app_clock clocks) root_payload world
current_user-agrees_example =
    current_user-agrees clocks root_payload world two_accounts-IsConsistent
