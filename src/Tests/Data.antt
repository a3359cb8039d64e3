-- ===== src/Tests/Data.antt =====
-- The data of the examples: two accounts, a session, and a deployment whose third-party functions
-- are small concrete ones.
use fast_api_ddd_template.Base.{
  ℕ, zero, suc, refl, arith, Bool, true, false, none, some, List, [], ◌∷◌, String, str_eq, concat,
  if◌then◌else◌,
}
use fast_api_ddd_template.Domain.Errors.{Result, ok}
use fast_api_ddd_template.Domain.Values.{UserPasswordHash, UserRawPassword, admin, user}
use fast_api_ddd_template.Domain.User.{User}
use fast_api_ddd_template.Database.{UserRow, SessionRow, Db, Session}
use fast_api_ddd_template.Database.Invariant.{IsReadable, IsConsistent}
use fast_api_ddd_template.Database.SessionRepo.{Clocks}
use fast_api_ddd_template.World.{World}
use fast_api_ddd_template.Auth.{AuthPayload}
use fast_api_ddd_template.Security.Jwt.{PyJwt, JwtTokenService, Claims, Decoded, claims, invalid}
use fast_api_ddd_template.Http.Message.{Request}
use fast_api_ddd_template.Http.AuthRoutes.{Settings, Draws}
use fast_api_ddd_template.Http.AccessToken.{stamped}
use fast_api_ddd_template.Http.Routes.{Deployment}

-- `n` bytes 7.
abbrev pub sevens : ℕ → List ℕ
sevens zero = []
sevens (suc n) = 7 ∷ sevens n

abbrev pub root_row : UserRow
root_row = record {
  id = 1;
  username = "root_admin";
  password_hash = sevens 60;
  role = admin;
  is_active = true;
}

abbrev pub mary_row : UserRow
mary_row = record {
  id = 2;
  username = "mary_smith";
  password_hash = sevens 60;
  role = user;
  is_active = true;
}

abbrev pub root_user : User
root_user = record {
  id = record { value = 1 };
  username = record { value = "root_admin" };
  password_hash = record { value = sevens 60 };
  role = admin;
  is_active = true;
}

abbrev pub mary_user : User
mary_user = record {
  id = record { value = 2 };
  username = record { value = "mary_smith" };
  password_hash = record { value = sevens 60 };
  role = user;
  is_active = true;
}

abbrev pub root_session : SessionRow
root_session = record {
  id = 10;
  user_id = 1;
  expires_at = 5000000;
  revoked_at = none;
  refresh_token_hash = "h:old";
}

abbrev pub mary_session : SessionRow
mary_session = record {
  id = 20;
  user_id = 2;
  expires_at = 5000000;
  revoked_at = none;
  refresh_token_hash = "h:mary";
}

abbrev pub two_accounts : Db
two_accounts = record {
  users = root_row ∷ mary_row ∷ [];
  sessions = root_session ∷ mary_session ∷ [];
}

abbrev pub world : World
world = record { db = two_accounts; log = [] }

abbrev pub clocks : Clocks
clocks = record { db_now = 1000000; now = 1000000 }

abbrev pub root_payload : AuthPayload
root_payload = record { user_id = 1; session_id = 10; role = "admin" }

abbrev pub mary_payload : AuthPayload
mary_payload = record { user_id = 2; session_id = 20; role = "user" }

abbrev pub start : Session
start = record { db = two_accounts; failed = false }

abbrev pub settings : Settings
settings = record {
  jwt_token_expiry = 15;
  refresh_token_expiry = 60;
  session_expiry_time = 60;
  max_concurrent_sessions = 2;
}

-- Tokens that name their subject; one token is known.
abbrev pub root_claims : Claims
root_claims = stamped 1 900 "jti" 1 admin 10

abbrev decode_known : String → Decoded
decode_known token =
    if str_eq token "root-token" then claims root_claims else invalid "Not enough segments"

abbrev pub jwt : PyJwt
jwt = record {
  encode = λ cs key algorithm. "root-token";
  decode = λ now options token key algorithm. decode_known token;
}

abbrev pub service : JwtTokenService
service = record {
  secret = "secret";
  algorithm = "HS256";
  default_expires = some 900;
  required_claims = "sub" ∷ "exp" ∷ "role" ∷ "sid" ∷ [];
  leeway = 0;
}

abbrev pub sha256 : String → String
sha256 token = concat "h:" token

abbrev pub repr : String → String
repr s = concat "'" (concat s "'")

abbrev pub hash : UserRawPassword → Result UserPasswordHash
hash raw = ok (record { value = sevens 60 })

abbrev pub verify : UserRawPassword → UserPasswordHash → Result Bool
verify raw hashed = ok (str_eq raw.value "correct horse")

abbrev pub deployment : Deployment
deployment = record {
  cfg = settings;
  jwt = jwt;
  service = service;
  sha256 = sha256;
  repr = repr;
  hash = hash;
  verify = verify;
}

abbrev pub draws : Draws
draws = record { clocks = clocks; session_id = 11; jti = "jti"; refresh_token = "new" }

abbrev pub bare_request : Request
bare_request = record {
  method = "GET";
  path = "/users";
  headers = [];
  has_cookies = true;
  auth_payload = none;
}

abbrev pub root_request : Request
root_request = record {
  method = "POST";
  path = "/users";
  headers = ("authorization", "Bearer root-token") ∷ [];
  has_cookies = true;
  auth_payload = none;
}

root_row-IsReadable : IsReadable root_row
root_row-IsReadable = record {
  long_enough = omega arith;
  short_enough = omega arith;
  hash_length = refl;
}

mary_row-IsReadable : IsReadable mary_row
mary_row-IsReadable = record {
  long_enough = omega arith;
  short_enough = omega arith;
  hash_length = refl;
}

pub two_accounts-IsConsistent : IsConsistent two_accounts
two_accounts-IsConsistent = record {
  users_keyed = (refl, refl, (refl, refl, tt));
  users_readable = (root_row-IsReadable, (mary_row-IsReadable, tt));
  sessions_keyed = (refl, refl, (refl, refl, tt));
  sessions_owned = (refl, (refl, tt));
}
