-- ===== src/Http/CachePolicy.antt =====
-- `cache_control_middleware` of main.py: the headers that it sets.
use fast_api_ddd_template.Base.{
  ◌≡◌, refl, sym, arith, Bool, true, false, not, ◌||◌, [], ◌∷◌, String, str_eq, eq_iff,
  if◌then◌else◌, ◌∙◌,
}
use fast_api_ddd_template.Http.Message.{Request, Reply, Headers, get_header, has_header}
use fast_api_ddd_template.Http.Middleware.{is_success, is_excluded, set_cache_control, cache_policy}

get_header-absent :
    (name : String) (hs : Headers) → has_header name hs ≡ false → get_header name hs ≡ ""
get_header-absent name [] h = refl
get_header-absent name ((k, v) ∷ hs) h = ground (arith, get_header-absent name hs)

-- The policy's choice, on the answers to its tests.
abbrev choice : Bool → Bool → Bool → Bool → String
choice excluded success personal reading =
    if excluded
    then ""
    else if not success
    then ""
    else if personal
    then "no-store"
    else if reading
    then "private, max-age=60"
    else "no-store"

choice-private :
    (excluded success personal reading : Bool)
    → choice excluded success personal reading ≡ "private, max-age=60"
    → (success ≡ true) × (personal ≡ false) × (reading ≡ true)
choice-private true success personal reading h =
    absurd (ground (arith, (eq_iff "" "private, max-age=60").1 h))
choice-private false false personal reading h =
    absurd (ground (arith, (eq_iff "" "private, max-age=60").1 h))
choice-private false true true reading h =
    absurd (ground (arith, (eq_iff "no-store" "private, max-age=60").1 h))
choice-private false true false true h = (refl, refl, refl)
choice-private false true false false h =
    absurd (ground (arith, (eq_iff "no-store" "private, max-age=60").1 h))

-- Whether a request or a reply belongs to one client.
abbrev pub is_personal : Request → Reply → Bool
is_personal request reply =
    has_header "authorization" request.headers
    || request.has_cookies
    || has_header "set-cookie" reply.headers

abbrev pub is_reading : Request → Bool
is_reading request = str_eq request.method "GET" || str_eq request.method "HEAD"

cache_policy-choice :
    (request : Request) (reply : Reply)
    → has_header "cache-control" reply.headers ≡ false
    → get_header "cache-control" (cache_policy request reply).headers
      ≡ choice
          (is_excluded request.path)
          (is_success reply.status)
          (is_personal request reply)
          (is_reading request)
unfolding cache_policy
cache_policy-choice request reply own = rw own (
    chosen (is_excluded request.path) (is_success reply.status) (is_personal request reply)
      (is_reading request))
  where
    chosen :
        (a b c d : Bool)
        → get_header "cache-control"
            (if a
              then reply
              else if not b
              then reply
              else if c
              then set_cache_control "no-store" reply
              else if d
              then set_cache_control "private, max-age=60" reply
              else set_cache_control "no-store" reply).headers
          ≡ choice a b c d
    chosen true b c d = get_header-absent "cache-control" reply.headers own
    chosen false false c d = get_header-absent "cache-control" reply.headers own
    chosen false true true d = refl
    chosen false true false true = refl
    chosen false true false false = refl

-- Where the handler set no `Cache-Control`, the policy lets a client store a reply only if it is a
-- success, to GET or HEAD, that sets no cookie, of a request without `Authorization` and cookies.
pub cache_policy-private :
    (request : Request) (reply : Reply)
    → has_header "cache-control" reply.headers ≡ false
    → get_header "cache-control" (cache_policy request reply).headers ≡ "private, max-age=60"
    → (is_success reply.status ≡ true)
      × (is_personal request reply ≡ false)
      × (is_reading request ≡ true)
cache_policy-private request reply own h =
    choice-private (is_excluded request.path) (is_success reply.status) (is_personal request reply)
      (is_reading request) (sym (cache_policy-choice request reply own) ∙ h)
