-- ===== src/Drf/Serializers.antt =====
-- app/interface/drf/serializers.py: the fields of the request serializers, and the data that
-- each one validates. The response serializers give the fields of the bodies of Http/Message.
use fast_api_ddd_template.Base.{true, false, Option, none, some, String}
use fast_api_ddd_template.Domain.Errors.{Result, ok, err, other_error, ◌>>=◌}
use fast_api_ddd_template.Domain.Values.{
  username_min_len, username_max_len, raw_password_min_len, raw_password_max_len,
}
use fast_api_ddd_template.Application.Dto.{CreateUserInputDto, AuthRequestDto}
use fast_api_ddd_template.Drf.Framework.{CharField, Input, Framework}

-- `serializers.CharField()`
abbrev pub char_field : CharField
char_field = record { min_length = none; max_length = none; required = true; allow_null = false }

abbrev pub username_field : CharField
username_field = record char_field {
  min_length = some username_min_len;
  max_length = some username_max_len;
}

abbrev pub password_field : CharField
password_field = record char_field {
  min_length = some raw_password_min_len;
  max_length = some raw_password_max_len;
}

-- `required=False, default=None, allow_null=True`
abbrev pub optional : CharField → CharField
optional field = record field { required = false; allow_null = true }

-- A field that is required and not null has a text.
abbrev given : Option String → Result String
given none = err (other_error "KeyError")
given (some text) = ok text

module _ (f : Framework) where
  abbrev text_of : CharField → Input → Result String
  text_of field input = do v ← f.run_validation field input; given v

  -- `LoginRequestSerializer`
  unfoldable pub validate_login : Input → Input → Result AuthRequestDto
  validate_login username password = do
    u ← text_of char_field username
    p ← text_of char_field password
    ok (record { username = u; raw_password = p })

  -- `RefreshTokenRequestSerializer`
  unfoldable pub validate_refresh : Input → Result String
  validate_refresh token = text_of char_field token

  -- `CreateUserRequestSerializer`
  unfoldable pub validate_create : Input → Input → Input → Result CreateUserInputDto
  validate_create username password role = do
    u ← text_of username_field username
    p ← text_of password_field password
    r ← text_of char_field role
    ok (record { username = u; password = p; role = r })

  -- `UpdateUserRequestSerializer`: the username and the role, where they are given.
  unfoldable pub validate_update : Input → Input → Result (Option String × Option String)
  validate_update username role = do
    u ← f.run_validation (optional username_field) username
    r ← f.run_validation (optional char_field) role
    ok (u, r)

  -- `ChangePasswordRequestSerializer`
  unfoldable pub validate_password : Input → Result String
  validate_password new_password = text_of password_field new_password
