-- ===== src/Domain/Errors.antt =====
-- app/domain/exceptions, app/application/exceptions and the built-in exceptions that the
-- code raises or catches. An exception carries its message, as `str(e)` shows it.
use fast_api_ddd_template.Base.{ℕ, List, String, Bool, true, false, ◌||◌}

-- The exceptions of Django REST framework that app/interface/drf/utils.py raises.
pub data ApiException : Type 0 where
  parse_error authentication_failed permission_denied not_found validation_error : ApiException

pub data Error : Type 0 where
  domain_error : String → Error
  value_object_error : String → Error
  duplicate_username_error : String → Error
  self_deletion_error : String → Error
  application_error : String → Error
  not_authenticated_error : String → Error
  not_authorized_error : String → Error
  value_error : String → Error
  key_error : String → Error
  assertion_error : String → Error
  -- An exception of the database driver: a constraint of the schema is violated.
  integrity_error : String → Error
  -- FastAPI's `HTTPException`: the status, the detail and the headers.
  http_exception : ℕ → String → List (String × String) → Error
  api_exception : ApiException → String → Error
  -- `ConflictError` of app/interface/drf/utils.py.
  conflict_error : String → Error
  -- Any other exception.
  other_error : String → Error

-- `str(e)`
abbrev pub message : Error → String
message (domain_error m) = m
message (value_object_error m) = m
message (duplicate_username_error m) = m
message (self_deletion_error m) = m
message (application_error m) = m
message (not_authenticated_error m) = m
message (not_authorized_error m) = m
message (value_error m) = m
message (key_error m) = m
message (assertion_error m) = m
message (integrity_error m) = m
message (http_exception status m headers) = m
message (api_exception kind m) = m
message (conflict_error m) = m
message (other_error m) = m

-- `except DomainError`: the class and its three subclasses.
abbrev pub is_domain_error : Error → Bool
is_domain_error (domain_error _) = true
is_domain_error (value_object_error _) = true
is_domain_error (duplicate_username_error _) = true
is_domain_error (self_deletion_error _) = true
is_domain_error _ = false

-- `except ValueObjectError`
abbrev pub is_value_object_error : Error → Bool
is_value_object_error (value_object_error _) = true
is_value_object_error _ = false

-- `except DuplicateUsernameError`
abbrev pub is_duplicate_username_error : Error → Bool
is_duplicate_username_error (duplicate_username_error _) = true
is_duplicate_username_error _ = false

-- `except SelfDeletionError`
abbrev pub is_self_deletion_error : Error → Bool
is_self_deletion_error (self_deletion_error _) = true
is_self_deletion_error _ = false

-- `except NotAuthenticatedError`
abbrev pub is_not_authenticated_error : Error → Bool
is_not_authenticated_error (not_authenticated_error _) = true
is_not_authenticated_error _ = false

-- `except NotAuthorizedError`
abbrev pub is_not_authorized_error : Error → Bool
is_not_authorized_error (not_authorized_error _) = true
is_not_authorized_error _ = false

-- `except ValueError`
abbrev pub is_value_error : Error → Bool
is_value_error (value_error _) = true
is_value_error _ = false

-- `except (DomainError, ValueError)`
abbrev pub is_domain_or_value_error : Error → Bool
is_domain_or_value_error e = is_domain_error e || is_value_error e

-- `except (ValueError, ValueObjectError)`
abbrev pub is_value_or_object_error : Error → Bool
is_value_or_object_error e = is_value_error e || is_value_object_error e

-- A computation that may raise.
pub data Result (A : Type 0) : Type 0 where
  ok : A → Result A
  err : Error → Result A

infixl 5 ◌>>=◌ ◌>>◌
abbrev pub ◌>>=◌ : {A B : Type 0} → Result A → (A → Result B) → Result B
ok a >>= f = f a
err e >>= f = err e

abbrev pub ◌>>◌ : {B : Type 0} → Result (Unit {0}) → Result B → Result B
m >> k = m >>= λ _. k

abbrev pub raise_if : Bool → Error → Result (Unit {0})
raise_if true e = err e
raise_if false e = ok tt
