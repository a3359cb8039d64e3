-- ===== src/Database/Mapping.antt =====
-- app/infrastructure/db/sqlalchemy/adapters/repo.py: the mapping between rows and domain users.
use fast_api_ddd_template.Base.{List, [], ◌∷◌}
use fast_api_ddd_template.Domain.Errors.{Result, ok, ◌>>=◌}
use fast_api_ddd_template.Domain.Values.{new_username, new_password_hash}
use fast_api_ddd_template.Domain.User.{User, from_storage}
use fast_api_ddd_template.Database.{UserRow}

-- The call of `User.from_storage` on a row, with the checks of the value objects.
unfoldable pub to_domain : UserRow → Result User
unfolding from_storage
to_domain r = do
  n ← new_username r.username
  h ← new_password_hash r.password_hash
  ok (from_storage (record { value = r.id }) n h r.role r.is_active)

unfoldable pub all_to_domain : List UserRow → Result (List User)
all_to_domain [] = ok []
all_to_domain (r ∷ rs) = do ok ((← to_domain r) ∷ (← all_to_domain rs))

-- The row of a user.
abbrev pub to_row : User → UserRow
to_row u = record {
  id = u.id.value;
  username = u.username.value;
  password_hash = u.password_hash.value;
  role = u.role;
  is_active = u.is_active;
}
