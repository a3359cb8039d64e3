-- ===== src/Config.antt =====
-- app/config/config.py: the checks of the settings. Pydantic reads each field from the environment
-- as a value of its type; the values are given here, where they are given there. Defaults are
-- checked like values, as pydantic-settings does.
pub mod Checks
use text.Mathlib.Text.{starts_with}
use Prim.Native.String.{[], ◌∷◌}
use fast_api_ddd_template.Base
use fast_api_ddd_template.Base.{
  ℕ, zero, suc, Bool, true, false, not, Option, none, some, List, ◌++◌, String, leb, str_eq, ◌||◌,
  concat, if◌then◌else◌,
}
use fast_api_ddd_template.Domain.Errors.{Result, ok, err, value_error, ◌>>=◌}
use fast_api_ddd_template.Base.Text.{lower}

-- Python's int: n, and -n - 1.
pub data ℤ : Type 0 where
  pos negsuc : ℕ → ℤ

-- `a <= b`
abbrev pub leb_ℤ : ℤ → ℤ → Bool
leb_ℤ (pos a) (pos b) = leb a b
leb_ℤ (pos a) (negsuc b) = false
leb_ℤ (negsuc a) (pos b) = true
leb_ℤ (negsuc a) (negsuc b) = leb b a

-- The classes of settings.
pub data ConfigClass : Type 0 where
  dev_config test_config prod_config : ConfigClass

-- The fields that are checked, as the environment gives them; an ENV that is not set is empty.
pub record Given : Type 0 where
  pub env : String
  pub debug : Bool
  pub jwt_secret : String
  pub jwt_token_expiry : Option ℤ
  pub refresh_token_expiry : Option ℤ
  pub cookie_secure : Option Bool

-- The fields of an instance.
pub record Config : Type 0 where
  pub env : String
  pub debug : Bool
  pub jwt_secret : String
  pub jwt_token_expiry : ℤ
  pub refresh_token_expiry : ℤ
  pub cookie_secure : Bool

abbrev or_default : {A : Type 0} → Option A → A → A
or_default (some a) d = a
or_default none d = d

abbrev default_cookie_secure : ConfigClass → Bool
default_cookie_secure dev_config = false
default_cookie_secure _ = true

-- The values with the defaults of the class.
unfoldable pub with_defaults : ConfigClass → Given → Config
with_defaults k g = record {
  env = g.env;
  debug = g.debug;
  jwt_secret = g.jwt_secret;
  jwt_token_expiry = or_default g.jwt_token_expiry (pos 60);
  refresh_token_expiry = or_default g.refresh_token_expiry (pos 43200);
  cookie_secure = or_default g.cookie_secure (default_cookie_secure k);
}

-- The type of the field ENV, `Literal["dev", "test", "prod"]`.
unfoldable pub check_env : String → Result String
check_env v =
    if str_eq v "dev" || str_eq v "test" || str_eq v "prod"
    then ok v
    else err (value_error "Input should be 'dev', 'test' or 'prod'")

-- `_positive_expiry`
unfoldable pub positive_expiry : ℤ → Result ℤ
positive_expiry v =
    if leb_ℤ v (pos 0) then err (value_error "Token expiry must be positive") else ok v

-- The access expiry in `info.data`, which has only the fields that passed.
abbrev seen : Result ℤ → ℤ
seen (ok v) = v
seen (err e) = pos 60

-- `_refresh_longer_than_access`
unfoldable pub refresh_longer_than_access : Result ℤ → ℤ → Result ℤ
refresh_longer_than_access access v =
    if leb_ℤ v (seen access)
    then err (value_error "Refresh token expiry must be > access token expiry")
    else ok v

-- `_enforce_debug_true` and `_enforce_debug_false`
unfoldable pub enforce_debug : ConfigClass → Bool → Result Bool
enforce_debug dev_config v =
    if not v then err (value_error "DEBUG must be True in development") else ok v
enforce_debug test_config v = if v then err (value_error "DEBUG must be False in testing") else ok v
enforce_debug prod_config v =
    if v then err (value_error "DEBUG must be False in production") else ok v

-- `needle in s`
unfoldable pub contains : String → String → Bool
contains needle [] = starts_with [] needle
contains needle (c ∷ s) = starts_with (c ∷ s) needle || contains needle s

-- `_check_secret`
unfoldable pub check_secret : ConfigClass → String → Result String
unfolding contains
check_secret prod_config v =
    if contains "secret" v then err (value_error "Invalid JWT_SECRET in production") else ok v
check_secret _ v = ok v

-- `_enforce_secure_cookie`
unfoldable pub enforce_secure_cookie : ConfigClass → Bool → Result Bool
enforce_secure_cookie prod_config v =
    if not v then err (value_error "COOKIE_SECURE must be True in production") else ok v
enforce_secure_cookie _ v = ok v

-- The field with its error, where it has one.
abbrev pub failure : {A : Type 0} → String → Result A → List String
failure field (ok a) = Base.[]
failure field (err e) = Base.◌∷◌ field Base.[]

-- The fields that a `ValidationError` names, in the order of the class.
unfoldable pub failures : ConfigClass → Config → List String
unfolding check_env positive_expiry refresh_longer_than_access enforce_debug check_secret
    enforce_secure_cookie
failures k c =
    let access = positive_expiry c.jwt_token_expiry in
    let refresh = positive_expiry c.refresh_token_expiry >>= refresh_longer_than_access access in
    failure "ENV" (check_env c.env)
    ++ failure "DEBUG" (enforce_debug k c.debug)
    ++ failure "JWT_SECRET" (check_secret k c.jwt_secret)
    ++ failure "JWT_TOKEN_EXPIRY" access
    ++ failure "REFRESH_TOKEN_EXPIRY" refresh
    ++ failure "COOKIE_SECURE" (enforce_secure_cookie k c.cookie_secure)

-- An instance of the class, or the `ValidationError`, which is a ValueError; its message is cut
-- to the first field that it names.
unfoldable pub new_config : ConfigClass → Given → Result (ConfigClass × Config)
unfolding failures with_defaults
new_config k g = elim (failures k (with_defaults k g)) [
  | Base.[] ↦ ok (k, with_defaults k g)
  | Base.◌∷◌ field fields ↦ err (value_error field)
]

-- `get_settings`. The variable ENV is also that of the field.
unfoldable pub get_settings : Given → Result (ConfigClass × Config)
unfolding new_config lower
get_settings g =
    let env = lower g.env in
    if str_eq g.env ""
    then err (value_error "ENV cannot be empty")
    else if str_eq env "dev"
    then new_config dev_config g
    else if str_eq env "test"
    then new_config test_config g
    else if str_eq env "prod"
    then new_config prod_config g
    else err (value_error (concat "Unknown ENV value: " env))
