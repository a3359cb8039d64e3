-- ===== src/Database/UserRepo.antt =====
-- app/infrastructure/db/sqlalchemy/adapters/repo.py: `UserRepositorySQL`.
pub mod Keeps
pub mod Contract
use fast_api_ddd_template.Base.{
  ℕ, ◌≡◌, Bool, Option, none, some, List, [], ◌∷◌, String, ◌==◌, str_eq, first, concat,
  if◌then◌else◌,
}
use fast_api_ddd_template.Domain.Errors.{
  Error, Result, ok, err, duplicate_username_error, value_error, integrity_error,
}
use fast_api_ddd_template.Domain.Values.{UserId, Username, id_text, new_username, new_password_hash}
use fast_api_ddd_template.Domain.User.{User, from_storage}
use fast_api_ddd_template.Database.{
  UserRow, Db, Query, ◌>>=◌, ◌>>◌, pure, raise, lift, select, flush,
}
use fast_api_ddd_template.Database.Mapping.{to_domain, all_to_domain, to_row}
use fast_api_ddd_template.Database.Schema.{insert_user, update_user}

abbrev pub by_id : ℕ → Db → Option UserRow
by_id i db = first (λ (r : UserRow). r.id == i) db.users

abbrev pub by_username : String → Db → Option UserRow
by_username name db = first (λ (r : UserRow). str_eq r.username name) db.users

-- A row that was found, as a domain object.
abbrev pub found : Option UserRow → Query (Option User)
found none = pure none
found (some r) = do u ← lift (to_domain r); pure (some u)

unfoldable pub get_by_id : UserId → Query (Option User)
get_by_id user_id = do r ← select (by_id user_id.value); found r

unfoldable pub get_by_username : Username → Query (Option User)
get_by_username username = do r ← select (by_username username.value); found r

-- `except IntegrityError as e: raise DuplicateUsernameError(...) from e`
abbrev pub renamed : String → Result (Unit {0}) → Result (Unit {0})
renamed text (err (integrity_error m)) = err (duplicate_username_error text)
renamed text r = r

abbrev as_duplicate : String → Query (Unit {0}) → Query (Unit {0})
as_duplicate text m s = let (r, s') = m s in (renamed text r, s')

unfoldable pub add : User → Query (Unit {0})
add u =
    as_duplicate (concat "User " (concat u.username.value " already exists"))
      (flush (insert_user (to_row u)))

unfoldable pub update : User → Query (Unit {0})
update u = do
  row ← select (by_id u.id.value)
  elim row [
    | none ↦ raise (value_error (concat "User " (concat (id_text u.id) " not found in database")))
    | some r ↦
        as_duplicate (concat "Username " (concat u.username.value " already exists"))
          (flush (update_user (to_row u)))
  ]

unfoldable pub get_all : Query (List User)
unfolding all_to_domain
get_all = do rows ← select (λ db. db.users); lift (all_to_domain rows)
