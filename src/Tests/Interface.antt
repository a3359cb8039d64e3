-- ===== src/Tests/Interface.antt =====
-- Examples of the HTTP interface.
use fast_api_ddd_template.Base.{◌≡◌, ◌≢◌, ◌⊎◌, refl, arith, true, false, none, some, [], ◌∷◌}
use fast_api_ddd_template.Domain.Errors.{Error, ok, err}
use fast_api_ddd_template.Domain.Values.{UserId, admin, role_text}
use fast_api_ddd_template.Security.Jwt.{
  PyJwt, Claims, Claim, claims, decode, accepted, token_invalid,
}
use fast_api_ddd_template.Http.Message.{Request, Reply, all_users, json, get_header}
use fast_api_ddd_template.Http.UseCases.{auth_service}
use fast_api_ddd_template.Http.Routes.{Call, handle}
use fast_api_ddd_template.Http.Middleware.{
  Endpoint, app, not_authorized, payload_of, is_success, cache_policy,
}
use fast_api_ddd_template.Http.Guards.{bearer_token, app-unauthenticated, app-answers}
use fast_api_ddd_template.Domain.Uuid.{uuid_text}
use fast_api_ddd_template.Http.AuthRoutes.{issue_access}
use fast_api_ddd_template.Http.AccessToken.{issue_access-payload_of}
use fast_api_ddd_template.Http.CachePolicy.{is_personal, is_reading, cache_policy-private}
use fast_api_ddd_template.Http.AdminOnly.Calls.{NoAdmin, handle-users}
use fast_api_ddd_template.Tests.Data.{
  settings, sha256, world, clocks, jwt, service, deployment, draws, mary_user, mary_payload,
  root_request, bare_request,
}

-- Mary, who is no administrator, asks for a promotion.
abbrev mary_request : Request
mary_request = record root_request { auth_payload = some mary_payload }

abbrev promotion : Call
promotion = Call.update_user "00000000-0000-0000-0000-000000000002" none (some "admin")

asks_as_mary : auth_service clocks mary_request world ≡ (ok mary_user, world)
unfolding fast_api_ddd_template.Auth.current_user fast_api_ddd_template.UnitOfWork.with_repo
    fast_api_ddd_template.Database.SessionRepo.get_user_if_session_valid
    fast_api_ddd_template.Database.Mapping.to_domain
    fast_api_ddd_template.Domain.Values.new_username
    fast_api_ddd_template.Domain.Values.new_password_hash
asks_as_mary = refl

mary-NoAdmin : NoAdmin (auth_service clocks mary_request) world
mary-NoAdmin u v e r a = ground (arith, asks_as_mary, e, r)

handle-users_example :
    (handle deployment draws (record { value = 3 }) promotion mary_request world).1.db.users
    ≡ world.db.users
handle-users_example =
    handle-users deployment draws (record { value = 3 }) mary_request world promotion mary-NoAdmin

abbrev endpoint : Endpoint
endpoint = handle deployment draws (record { value = 3 }) Call.get_all_users

abbrev stranger : Request
stranger = record bare_request { headers = ("authorization", "Bearer nobody") ∷ [] }

rejects : decode jwt service 1 true (bearer_token stranger) ≡ token_invalid
unfolding decode
rejects = refl

never_accepted : (cs : Claims) → decode jwt service 1 true (bearer_token stranger) ≢ accepted cs
never_accepted cs e = ground (arith, rejects, e)

app-unauthenticated_example : app jwt service 1 endpoint stranger world ≡ (ok not_authorized, world)
app-unauthenticated_example =
    app-unauthenticated jwt service 1 endpoint stranger world refl never_accepted

-- A token library that accepts a token whose subject is no UUID.
abbrev odd_jwt : PyJwt
odd_jwt = record {
  encode = λ cs key algorithm. "token";
  decode = λ now options token key algorithm. claims (
      ("sub", Claim.text "root")
      ∷ ("sid", Claim.text "1")
      ∷ ("role", Claim.text "admin")
      ∷ ("exp", Claim.number 900)
      ∷ []);
}

app-answers_example :
    ((reply : Reply) × ((app odd_jwt service 1 endpoint root_request world).0 ≡ ok reply))
    ⊎ ((cs : Claims) × (x : Error) × (decode odd_jwt service 1 true (bearer_token root_request)
          ≡ accepted cs)
        × (payload_of cs ≡ some (err x))
        × ((app odd_jwt service 1 endpoint root_request world).0 ≡ err x))
app-answers_example = app-answers odd_jwt service 1 endpoint root_request world

abbrev anonymous : Request
anonymous = record bare_request { has_cookies = false }

abbrev listing : Reply
listing = json 200 (all_users [])

may_be_stored :
    get_header "cache-control" (cache_policy anonymous listing).headers ≡ "private, max-age=60"
unfolding cache_policy
may_be_stored = refl

cache_policy-private_example :
    (is_success listing.status ≡ true)
    × (is_personal anonymous listing ≡ false)
    × (is_reading anonymous ≡ true)
cache_policy-private_example = cache_policy-private anonymous listing refl may_be_stored

issue_access-payload_of_example :
    (cs : Claims) × (decode jwt service 5 true
        (issue_access settings jwt service sha256 draws (uuid_text 1) (role_text admin) 10)
      ≡ accepted cs)
    × (payload_of cs ≡ some (ok (record { user_id = 1; session_id = 10; role = role_text admin })))
issue_access-payload_of_example =
    issue_access-payload_of settings jwt service sha256 draws 900 5 1 admin 10 refl refl
      (omega arith) (omega arith) refl
