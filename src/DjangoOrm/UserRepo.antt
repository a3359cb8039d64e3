-- ===== src/DjangoOrm/UserRepo.antt =====
-- app/infrastructure/db/django_orm/adapters/repo.py: `UserRepositoryDjango`.
pub mod Agrees
pub mod Keeps
use fast_api_ddd_template.Base.{
  ℕ, Option, List, String, ◌==◌, str_eq, where_, count_where, concat, if◌then◌else◌,
}
use fast_api_ddd_template.Domain.Errors
use fast_api_ddd_template.Domain.Errors.{
  Error, Result, ok, err, duplicate_username_error, value_error, integrity_error,
}
use fast_api_ddd_template.Domain.Values.{UserId, Username, id_text}
use fast_api_ddd_template.Domain.User.{User}
use fast_api_ddd_template.Database.{UserRow, Db, Query, ◌>>=◌, ◌>>◌, lift, select, flush}
use fast_api_ddd_template.Database.Mapping.{all_to_domain, to_row}
use fast_api_ddd_template.Database.Schema.{insert_user, update_user, has_user}
use fast_api_ddd_template.Database.UserRepo.{found, renamed}
use fast_api_ddd_template.DjangoOrm.Rows.{aget}

unfoldable pub get_by_id : UserId → Query (Option User)
unfolding aget
get_by_id user_id = do
  row ← aget (λ db. where_ (λ (r : UserRow). r.id == user_id.value) db.users)
  found row

unfoldable pub get_by_username : Username → Query (Option User)
unfolding aget
get_by_username username = do
  row ← aget (λ db. where_ (λ (r : UserRow). str_eq r.username username.value) db.users)
  found row

-- `except IntegrityError as e: raise DuplicateUsernameError(...) from e`, where the failed
-- statement has marked the transaction.
abbrev pub as_duplicate : String → Query (Unit {0}) → Query (Unit {0})
as_duplicate text m s = let (r, s') = m s in (renamed text r, s')

unfoldable pub add : User → Query (Unit {0})
add u =
    as_duplicate (concat "User " (concat u.username.value " already exists"))
      (flush (insert_user (to_row u)))

-- `filter(id=...).aupdate(...)`: where no row has the id, no row is written.
abbrev pub write_user : User → Db → Result Db
write_user u db = if has_user u.id.value db.users then update_user (to_row u) db else ok db

-- The number of rows that `aupdate` matches.
abbrev pub matched : User → Db → ℕ
matched u db = count_where (λ (r : UserRow). r.id == u.id.value) db.users

unfoldable pub update : User → Query (Unit {0})
update u = do
  updated ← select (matched u)
  as_duplicate (concat "Username " (concat u.username.value " already exists"))
      (flush (write_user u))
  lift (
      Errors.raise_if (updated == 0)
        (value_error (concat "User " (concat (id_text u.id) " not found in database"))))

unfoldable pub get_all : Query (List User)
unfolding all_to_domain
get_all = do rows ← select (λ db. db.users); lift (all_to_domain rows)
