-- ===== src/Database/Invariant.antt =====
-- The invariant of the tables.
pub mod UserWrites
pub mod SessionWrites
pub mod UserMethods
use fast_api_ddd_template.Base.{ℕ, ◌≤◌, ◌≡◌, refl, true, List, [], String, count, length, All}
use fast_api_ddd_template.Base.Keyed.{IsKeyed, has_id}
use fast_api_ddd_template.Domain.User.{User}
use fast_api_ddd_template.Database.{UserRow, SessionRow, Db}

-- A row that the value objects accept.
pub record IsReadable (r : UserRow) : Type 0 where
  pub long_enough : 5 ≤ count r.username
  pub short_enough : count r.username ≤ 20
  pub hash_length : length r.password_hash ≡ 60

-- A user whose value objects have passed their checks.
pub record IsValid (u : User) : Type 0 where
  pub long_enough : 5 ≤ count u.username.value
  pub short_enough : count u.username.value ≤ 20
  pub hash_length : length u.password_hash.value ≡ 60

abbrev pub user_id_of : UserRow → ℕ
user_id_of r = r.id

abbrev pub username_of : UserRow → String
username_of r = r.username

abbrev pub session_id_of : SessionRow → ℕ
session_id_of s = s.id

abbrev pub token_hash_of : SessionRow → String
token_hash_of s = s.refresh_token_hash

-- The session belongs to a user of the table.
abbrev pub IsOwned : List UserRow → SessionRow → Type 0
IsOwned users s = has_id user_id_of username_of s.user_id users ≡ true

-- Ids and usernames are unique and readable; session ids and token hashes are unique, and every
-- session has its user.
pub record IsConsistent (db : Db) : Type 0 where
  pub users_keyed : IsKeyed user_id_of username_of db.users
  pub users_readable : All IsReadable db.users
  pub sessions_keyed : IsKeyed session_id_of token_hash_of db.sessions
  pub sessions_owned : All (IsOwned db.users) db.sessions

pub empty-IsConsistent : IsConsistent (record { users = []; sessions = [] })
empty-IsConsistent = record {
  users_keyed = tt;
  users_readable = tt;
  sessions_keyed = tt;
  sessions_owned = tt;
}
