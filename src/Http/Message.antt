-- ===== src/Http/Message.antt =====
-- The requests and responses of app/interface/http, with the bodies of schemas.py that the
-- handlers build. Names of headers are in lower case, as Starlette keeps them.
use fast_api_ddd_template.Base.{
  ℕ, Option, List, [], String, Bool, false, true, ◌∷◌, str_eq, if◌then◌else◌,
}
use fast_api_ddd_template.Application.Dto.{UserDto, CreateUserOutputDto}
use fast_api_ddd_template.Auth.{AuthPayload}

-- `Token`
pub record Token : Type 0 where
  pub access_token : String
  pub access_token_type : String
  pub expires_in : ℕ
  pub refresh_token : Option String
  pub refresh_expires_in : ℕ

-- The bodies: `UserResponse` has the fields of `UserDto`, and `CreateUserResponse` those of its DTO.
pub data Body : Type 0 where
  one_user : UserDto → Body
  all_users : List UserDto → Body
  created_user : CreateUserOutputDto → Body
  token : Token → Body
  detail : String → Body
  -- What /health returns.
  health_status : String → Body
  nothing : Body

abbrev pub Headers : Type 0
Headers = List (String × String)

-- Django keeps the cookies that `set_cookie` sets in `response.cookies`, apart from the headers;
-- Starlette writes them to the headers, and has no `cookies`.
pub record Reply : Type 0 where
  pub status : ℕ
  pub body : Body
  pub headers : Headers
  pub cookies : List (String × String)

abbrev pub json : ℕ → Body → Reply
json status body = record { status = status; body = body; headers = []; cookies = [] }

pub record Request : Type 0 where
  pub method : String
  pub path : String
  pub headers : Headers
  pub has_cookies : Bool
  -- `request.state.auth_payload`
  pub auth_payload : Option AuthPayload

-- Whether a header is there.
abbrev pub has_header : String → Headers → Bool
has_header name [] = false
has_header name ((k, v) ∷ hs) = if str_eq k name then true else has_header name hs

-- `headers.get(name, "")`
abbrev pub get_header : String → Headers → String
get_header name [] = ""
get_header name ((k, v) ∷ hs) = if str_eq k name then v else get_header name hs
