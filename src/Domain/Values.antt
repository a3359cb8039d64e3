-- ===== src/Domain/Values.antt =====
-- app/domain/value_objects: the value objects with the checks of their `__post_init__`, and
-- the limits of constants.py.
pub mod Bounds
use fast_api_ddd_template.Base.{
  ℕ, ◌+◌, Bool, true, false, ◌&&◌, List, [], ◌∷◌, String, count, length, ◌==◌, leb, str_eq,
  bytes_eq, if◌then◌else◌, concat, not,
}
use fast_api_ddd_template.Domain.Errors.{
  Result, ok, err, value_object_error, value_error, ◌>>=◌, ◌>>◌, raise_if,
}
use fast_api_ddd_template.Domain.Uuid.{uuid_text, parse_uuid}

abbrev pub username_min_len : ℕ
username_min_len = 5

abbrev pub username_max_len : ℕ
username_max_len = 20

abbrev pub raw_password_min_len : ℕ
raw_password_min_len = 6

abbrev pub raw_password_max_len : ℕ
raw_password_max_len = 20

abbrev pub hash_len : ℕ
hash_len = 60

-- `ValueObject.__post_init__`, over the names of the fields of the class.
unfoldable pub post_init : String → List String → Result (Unit {0})
post_init type_name [] =
    err (value_object_error (concat type_name " must have at least one field!"))
post_init type_name (f ∷ fs) = ok tt

pub record UserId : Type 0 where
  pub value : ℕ

-- `UserId.__str__`
abbrev pub id_text : UserId → String
id_text i = uuid_text i.value

-- `UserId.from_str`
unfoldable pub user_id_from_str : String → Result UserId
unfolding post_init
user_id_from_str v = do
  u ← parse_uuid v
  post_init "UserId" ("value" ∷ [])
  ok (record { value = u })

-- `==` of user ids.
abbrev pub id_eq : UserId → UserId → Bool
id_eq i j = i.value == j.value

pub record Username : Type 0 where
  pub value : String

unfoldable pub validate_username_length : String → Result (Unit {0})
validate_username_length v =
    raise_if (not (leb username_min_len (count v) && leb (count v) username_max_len))
      (value_object_error "Username must be between 5 and 20 characters.")

-- `Username(v)`
unfoldable pub new_username : String → Result Username
unfolding post_init validate_username_length
new_username v = do
  post_init "Username" ("value" ∷ [])
  validate_username_length v
  ok (record { value = v })

abbrev pub username_eq : Username → Username → Bool
username_eq a b = str_eq a.value b.value

pub record UserRawPassword : Type 0 where
  pub value : String

-- `UserRawPassword(v)`
unfoldable pub new_raw_password : String → Result UserRawPassword
unfolding post_init
new_raw_password v = do
  post_init "UserRawPassword" ("value" ∷ [])
  raise_if (count v == 0) (value_object_error "Password must not be empty.")
  raise_if (not (leb raw_password_min_len (count v) && leb (count v) raw_password_max_len))
      (value_object_error "Password length must be 6-20 symbols.")
  ok (record { value = v })

pub record UserPasswordHash : Type 0 where
  pub value : List ℕ

-- `UserPasswordHash(v)`
unfoldable pub new_password_hash : List ℕ → Result UserPasswordHash
unfolding post_init
new_password_hash v = do
  post_init "UserPasswordHash" ("value" ∷ [])
  raise_if (length v == 0) (value_object_error "Password hash must not be empty.")
  raise_if (not (length v == hash_len)) (value_object_error "Password hash must be 60 bytes.")
  ok (record { value = v })

abbrev pub password_hash_eq : UserPasswordHash → UserPasswordHash → Bool
password_hash_eq a b = bytes_eq a.value b.value

pub data UserRole : Type 0 where
  admin user : UserRole

-- The text of a member of the `StrEnum`.
abbrev pub role_text : UserRole → String
role_text admin = "admin"
role_text user = "user"

abbrev pub role_eq : UserRole → UserRole → Bool
role_eq admin admin = true
role_eq admin user = false
role_eq user admin = false
role_eq user user = true

-- `UserRole(v)`. The message quotes the text by `repr`, which is given.
unfoldable pub new_user_role : (String → String) → String → Result UserRole
new_user_role repr v =
    if str_eq v "admin"
    then ok admin
    else if str_eq v "user"
    then ok user
    else err (value_error (concat (repr v) " is not a valid UserRole"))
