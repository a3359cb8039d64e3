-- ===== src/Database/Invariant/UserWrites.antt =====
-- The invariant of the tables under the writes of Database/Schema to users.
use fast_api_ddd_template.Base.{
  ℕ, ◌≤◌, ◌≡◌, ◌∙◌, true, false, List, [], ◌∷◌, ◌++◌, count, length, All-append, All-map,
  All-update, arith, ◌==◌,
}
use fast_api_ddd_template.Base.Keyed.{
  has_id, replace, append-IsKeyed, replace-IsKeyed, has_id-replace,
}
use fast_api_ddd_template.Domain.Errors.{ok}
use fast_api_ddd_template.Database.{UserRow, Db}
use fast_api_ddd_template.Database.Schema.{
  check_user, insert_user, update_user, has_user, username_taken,
}
use fast_api_ddd_template.Database.Invariant.{
  IsReadable, IsConsistent, IsOwned, user_id_of, username_of,
}

-- What an accepted row has passed.
check_user-ok :
    (r : UserRow) (users : List UserRow)
    → check_user r users ≡ ok tt
    → (username_taken r.id r.username users ≡ false)
      × (5 ≤ count r.username)
      × (count r.username ≤ 20)
unfolding check_user
check_user-ok r users h = ground arith

pub insert_user-ok :
    (r : UserRow) (db : Db) {db' : Db}
    → insert_user r db ≡ ok db'
    → (has_user r.id db.users ≡ false)
      × (check_user r db.users ≡ ok tt)
      × (db' ≡ record db { users = db.users ++ r ∷ [] })
unfolding insert_user
insert_user-ok r db h = ground arith

has_id-grow :
    (i : ℕ) (users : List UserRow) (r : UserRow)
    → has_id user_id_of username_of i users ≡ true
    → has_id user_id_of username_of i (users ++ r ∷ []) ≡ true
has_id-grow i [] r h = cc
has_id-grow i (x ∷ xs) r h = ground (arith, has_id-grow i xs r)

pub insert_user-IsConsistent :
    (r : UserRow) (db : Db) {db' : Db}
    → length r.password_hash ≡ 60
    → IsConsistent db
    → insert_user r db ≡ ok db'
    → IsConsistent db'
insert_user-IsConsistent r db len h e =
    let f = insert_user-ok r db e in
    let c = check_user-ok r db.users f.1 in
    rw f.2 (record {
      users_keyed = append-IsKeyed user_id_of username_of db.users r h.users_keyed f.0 c.0;
      users_readable =
          All-append IsReadable db.users r h.users_readable
            (record { long_enough = c.1; short_enough = c.2; hash_length = len });
      sessions_keyed = h.sessions_keyed;
      sessions_owned =
          All-map (IsOwned db.users) (IsOwned (db.users ++ r ∷ [])) db.sessions
            (λ s. has_id-grow s.user_id db.users r) h.sessions_owned;
    })

pub update_user-ok :
    (r : UserRow) (db : Db) {db' : Db}
    → update_user r db ≡ ok db'
    → (check_user r db.users ≡ ok tt)
      × (db' ≡ record db { users = replace user_id_of username_of r db.users })
unfolding update_user
update_user-ok r db h = ground arith

pub update_user-IsConsistent :
    (r : UserRow) (db : Db) {db' : Db}
    → length r.password_hash ≡ 60
    → IsConsistent db
    → update_user r db ≡ ok db'
    → IsConsistent db'
update_user-IsConsistent r db len h e =
    let f = update_user-ok r db e in
    let c = check_user-ok r db.users f.0 in
    rw f.1 (record {
      users_keyed = replace-IsKeyed user_id_of username_of db.users r h.users_keyed c.0;
      users_readable =
          All-update IsReadable (λ (o : UserRow). o.id == r.id) (λ _. r) db.users
            (λ _ _. record { long_enough = c.1; short_enough = c.2; hash_length = len })
            h.users_readable;
      sessions_keyed = h.sessions_keyed;
      sessions_owned =
          All-map (IsOwned db.users) (IsOwned (replace user_id_of username_of r db.users))
            db.sessions (λ s o. has_id-replace user_id_of username_of s.user_id r db.users ∙ o)
            h.sessions_owned;
    })
