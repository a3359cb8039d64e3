-- ===== src/Drf/Mirrors.antt =====
-- The middlewares of app/interface/drf against those of app/interface/http.
use fast_api_ddd_template.Base.{
  ℕ, Bool, ◌≡◌, ◌≢◌, refl, arith, true, false, not, ◌||◌, ◌⊎◌, inl, inr, List, [], ◌∷◌, ◌++◌,
  String, map, str_eq, if◌then◌else◌,
}
use fast_api_ddd_template.World.{World}
use fast_api_ddd_template.Domain.Uuid.{suffix}
use fast_api_ddd_template.Security.Jwt.{
  PyJwt, JwtTokenService, Outcome, decode, accepted, token_expired, token_invalid,
}
use fast_api_ddd_template.Http.Message.{Request, Reply, Headers, has_header, get_header}
use fast_api_ddd_template.Http.Middleware as Http
use fast_api_ddd_template.Drf.Framework.{View}
use fast_api_ddd_template.Drf.Middleware as Drf

-- The public prefixes stand in another order.
is_public-agree : (request : Request) → Drf.is_public request ≡ Http.is_public request
unfolding Drf.is_public
is_public-agree request = ground arith

admit-agree :
    (v : View) (request : Request) (o : Outcome) (w : World)
    → Drf.admit v request o w ≡ Http.admit v request o w
unfolding Drf.read_claims Http.payload_of
admit-agree v request token_expired w = refl
admit-agree v request token_invalid w = refl
admit-agree v request (accepted cs) w = ground arith

-- Around the same view, the authentication middlewares of the two interfaces do the same with
-- every request at every time: they refuse the same requests, and hand on the others with the
-- same payload.
pub auth-agrees :
    (jwt : PyJwt) (service : JwtTokenService) (now : ℕ) (v : View) (request : Request) (w : World)
    → Drf.auth jwt service now v request w ≡ Http.check_user_auth jwt service now v request w
unfolding Drf.auth Http.check_user_auth
auth-agrees jwt service now v request w = ground (
  arith,
  admit-agree v request
      (decode jwt service now true (suffix 7 (get_header "authorization" request.headers))) w,
)

-- The headers that cookies have on the wire; Starlette has them in the reply at once.
abbrev pub cookie_headers : List (String × String) → Headers
cookie_headers = map (λ c. ("set-cookie", c.1))

abbrev pub in_headers : Reply → Reply
in_headers r = record r { headers = r.headers ++ cookie_headers r.cookies; cookies = [] }

has_header-append :
    (name : String) (hs more : Headers)
    → has_header name (hs ++ more) ≡ (has_header name hs || has_header name more)
has_header-append name [] more = refl
has_header-append name ((k, v) ∷ hs) more = ground (arith, has_header-append name hs more)

has_header-cookies :
    (name : String) (cs : List (String × String))
    → str_eq "set-cookie" name ≡ false
    → has_header name (cookie_headers cs) ≡ false
has_header-cookies name [] e = refl
has_header-cookies name (c ∷ cs) e = ground (arith, e, has_header-cookies name cs e)

-- A policy, from the answers to its questions in their order.
abbrev choose : Bool → Bool → Bool → Bool → Bool → Bool → Bool → Reply → Reply
choose has excluded success credentials cookies sets reads r =
    if has
    then r
    else if excluded
    then r
    else if not success
    then r
    else if credentials || cookies || sets
    then Http.set_cache_control "no-store" r
    else if reads
    then Http.set_cache_control "private, max-age=60" r
    else Http.set_cache_control "no-store" r

-- The two replies agree, or that of Django may be kept, and that of FastAPI may not.
abbrev Mirrors : Reply → Reply → Reply → Type 0
Mirrors r django fastapi =
    (in_headers django ≡ fastapi)
    ⊎ ((r.cookies ≢ [])
        × (django ≡ Drf.with_policy "private, max-age=60" r)
        × (fastapi ≡ Http.set_cache_control "no-store" (in_headers r)))

has_cookies :
    (cs : List (String × String)) → has_header "set-cookie" (cookie_headers cs) ≡ true → cs ≢ []
has_cookies [] h e = absurd (ground (arith, h))
has_cookies (c ∷ cs) h e = absurd (ground (arith, e))

-- `more` tells whether the reply has a cookie apart from its headers.
choose-Mirrors :
    (r : Reply) (has excluded success credentials cookies sets more reads : Bool)
    → has_header "set-cookie" (cookie_headers r.cookies) ≡ more
    → Mirrors r (choose has excluded success credentials cookies sets reads r) (
        choose
          (has || false)
          excluded
          success
          credentials
          cookies
          (sets || more)
          reads
          (in_headers r))
choose-Mirrors r true b c x y e m g h = inl refl
choose-Mirrors r false true c x y e m g h = inl refl
choose-Mirrors r false false false x y e m g h = inl refl
choose-Mirrors r false false true true y e m g h = inl refl
choose-Mirrors r false false true false true e m g h = inl refl
choose-Mirrors r false false true false false true m g h = inl refl
choose-Mirrors r false false true false false false true true h =
    inr (has_cookies r.cookies h, refl, refl)
choose-Mirrors r false false true false false false true false h = inl refl
choose-Mirrors r false false true false false false false true h = inl refl
choose-Mirrors r false false true false false false false false h = inl refl

-- On every reply the cache policies of the two interfaces agree, up to where the cookies of
-- `set_cookie` are kept; or the reply has such a cookie, the middleware of Django, which does not
-- see it, lets the client keep the reply for a minute, and that of FastAPI forbids it.
pub policies-agree :
    (request : Request) (r : Reply)
    → (in_headers (Drf.set_policy request r) ≡ Http.cache_policy request (in_headers r))
      ⊎ ((r.cookies ≢ [])
          × (Drf.set_policy request r ≡ Drf.with_policy "private, max-age=60" r)
          × (Http.cache_policy request (in_headers r)
              ≡ Http.set_cache_control "no-store" (in_headers r)))
unfolding Drf.set_policy Http.cache_policy
policies-agree request r =
    let cs : Headers = cookie_headers r.cookies in
    rw
      (
        has_header-append "cache-control" r.headers cs,
        has_header-append "set-cookie" r.headers cs,
        has_header-cookies "cache-control" r.cookies refl,
      )
      (choose-Mirrors r (has_header "cache-control" r.headers) (Http.is_excluded request.path)
        (Http.is_success r.status) (has_header "authorization" request.headers) request.has_cookies
        (has_header "set-cookie" r.headers) (has_header "set-cookie" cs)
        (str_eq request.method "GET" || str_eq request.method "HEAD") refl)
