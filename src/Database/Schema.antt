-- ===== src/Database/Schema.antt =====
-- The constraints of models/user.py and models/user_sessions.py, as PostgreSQL checks them when
-- a row is inserted or updated.
use fast_api_ddd_template.Base.{
  ℕ, Bool, not, ◌&&◌, List, [], ◌∷◌, ◌++◌, String, count, ◌==◌, ltb, str_eq, exists, update_where,
  if◌then◌else◌,
}
use fast_api_ddd_template.Domain.Errors.{Result, ok, err, integrity_error, other_error}
use fast_api_ddd_template.Domain.Values.{username_min_len, username_max_len}
use fast_api_ddd_template.Database.{UserRow, SessionRow, Db}

abbrev pub username_taken : ℕ → String → List UserRow → Bool
username_taken id name = exists (λ (r : UserRow). not (r.id == id) && str_eq r.username name)

-- `users`: username is unique and has 5 to 20 characters.
unfoldable pub check_user : UserRow → List UserRow → Result (Unit {0})
check_user r others =
    if ltb username_max_len (count r.username)
    then err (other_error "value too long for type character varying(20)")
    else if ltb (count r.username) username_min_len
    then err (integrity_error "username_min_length")
    else if username_taken r.id r.username others
    then err (integrity_error "uq_user_username")
    else ok tt

abbrev pub has_user : ℕ → List UserRow → Bool
has_user id = exists (λ (r : UserRow). r.id == id)

-- INSERT INTO users: the id is the primary key.
unfoldable pub insert_user : UserRow → Db → Result Db
unfolding check_user
insert_user r db =
    if has_user r.id db.users
    then err (integrity_error "users_pkey")
    else elim (check_user r db.users) [
      | ok _ ↦ ok (record db { users = db.users ++ r ∷ [] })
      | err e ↦ err e
    ]

-- UPDATE users: the row with the id of `r` becomes `r`.
unfoldable pub update_user : UserRow → Db → Result Db
unfolding check_user
update_user r db = elim (check_user r db.users) [
  | ok _ ↦ ok (record db { users = update_where (λ (o : UserRow). o.id == r.id) (λ _. r) db.users })
  | err e ↦ err e
]

abbrev pub hash_taken : ℕ → String → List SessionRow → Bool
hash_taken id hash =
    exists (λ (s : SessionRow). not (s.id == id) && str_eq s.refresh_token_hash hash)

abbrev pub has_session : ℕ → List SessionRow → Bool
has_session id = exists (λ (s : SessionRow). s.id == id)

-- `user_sessions`: the hash of the refresh token is unique and has at most 128 characters.
unfoldable pub check_session : SessionRow → List SessionRow → Result (Unit {0})
check_session s others =
    if ltb 128 (count s.refresh_token_hash)
    then err (other_error "value too long for type character varying(128)")
    else if hash_taken s.id s.refresh_token_hash others
    then err (integrity_error "user_sessions_refresh_token_hash_key")
    else ok tt

-- INSERT INTO user_sessions: the id is the primary key, user_id refers to a user.
unfoldable pub insert_session : SessionRow → Db → Result Db
unfolding check_session
insert_session s db =
    if has_session s.id db.sessions
    then err (integrity_error "user_sessions_pkey")
    else if not (has_user s.user_id db.users)
    then err (integrity_error "user_sessions_user_id_fkey")
    else elim (check_session s db.sessions) [
      | ok _ ↦ ok (record db { sessions = db.sessions ++ s ∷ [] })
      | err e ↦ err e
    ]

-- UPDATE user_sessions: the row with the id of `s` becomes `s`.
unfoldable pub update_session : SessionRow → Db → Result Db
unfolding check_session
update_session s db = elim (check_session s db.sessions) [
  | ok _ ↦ ok (record db {
    sessions = update_where (λ (o : SessionRow). o.id == s.id) (λ _. s) db.sessions;
  })
  | err e ↦ err e
]
