-- ===== src/Database/Invariant/SessionWrites.antt =====
-- The invariant of the tables under the writes of Database/Schema to user_sessions.
use fast_api_ddd_template.Base.{
  ◌≡◌, Bool, true, false, List, [], ◌∷◌, ◌++◌, All-append, All-update, All-where, where_,
  update_where, arith, ◌==◌,
}
use fast_api_ddd_template.Base.Keyed.{
  replace, append-IsKeyed, replace-IsKeyed, update-IsKeyed, where-IsKeyed,
}
use fast_api_ddd_template.Domain.Errors.{ok}
use fast_api_ddd_template.Database.{SessionRow, Db}
use fast_api_ddd_template.Database.Schema.{
  check_session, insert_session, update_session, has_user, has_session, hash_taken,
}
use fast_api_ddd_template.Database.Invariant.{IsConsistent, IsOwned, session_id_of, token_hash_of}

check_session-ok :
    (s : SessionRow) (sessions : List SessionRow)
    → check_session s sessions ≡ ok tt
    → hash_taken s.id s.refresh_token_hash sessions ≡ false
unfolding check_session
check_session-ok s sessions h = ground arith

pub insert_session-ok :
    (s : SessionRow) (db : Db) {db' : Db}
    → insert_session s db ≡ ok db'
    → (has_session s.id db.sessions ≡ false)
      × (has_user s.user_id db.users ≡ true)
      × (check_session s db.sessions ≡ ok tt)
      × (db' ≡ record db { sessions = db.sessions ++ s ∷ [] })
unfolding insert_session
insert_session-ok s db h = ground arith

pub insert_session-IsConsistent :
    (s : SessionRow) (db : Db) {db' : Db}
    → IsConsistent db
    → insert_session s db ≡ ok db'
    → IsConsistent db'
insert_session-IsConsistent s db h e =
    let f = insert_session-ok s db e in
    rw f.3 (record {
      users_keyed = h.users_keyed;
      users_readable = h.users_readable;
      sessions_keyed =
          append-IsKeyed session_id_of token_hash_of db.sessions s h.sessions_keyed f.0
            (check_session-ok s db.sessions f.2);
      sessions_owned = All-append (IsOwned db.users) db.sessions s h.sessions_owned f.1;
    })

pub update_session-ok :
    (s : SessionRow) (db : Db) {db' : Db}
    → update_session s db ≡ ok db'
    → (check_session s db.sessions ≡ ok tt)
      × (db' ≡ record db { sessions = replace session_id_of token_hash_of s db.sessions })
unfolding update_session
update_session-ok s db h = ground arith

pub update_session-IsConsistent :
    (s : SessionRow) (db : Db) {db' : Db}
    → IsOwned db.users s
    → IsConsistent db
    → update_session s db ≡ ok db'
    → IsConsistent db'
update_session-IsConsistent s db o h e =
    let f = update_session-ok s db e in
    rw f.1 (record {
      users_keyed = h.users_keyed;
      users_readable = h.users_readable;
      sessions_keyed =
          replace-IsKeyed session_id_of token_hash_of db.sessions s h.sessions_keyed
            (check_session-ok s db.sessions f.0);
      sessions_owned =
          All-update (IsOwned db.users) (λ (o : SessionRow). o.id == s.id) (λ _. s) db.sessions
            (λ _ _. o) h.sessions_owned;
    })

-- Sessions rewritten with their id, hash and user kept.
pub rewrite-IsConsistent :
    (p : SessionRow → Bool) (f : SessionRow → SessionRow) (db : Db)
    → ((s : SessionRow)
        → ((f s).id ≡ s.id)
          × ((f s).refresh_token_hash ≡ s.refresh_token_hash)
          × ((f s).user_id ≡ s.user_id))
    → IsConsistent db
    → IsConsistent (record db { sessions = update_where p f db.sessions })
rewrite-IsConsistent p f db k h = record {
  users_keyed = h.users_keyed;
  users_readable = h.users_readable;
  sessions_keyed =
      update-IsKeyed session_id_of token_hash_of f p (λ s. (k s).0) (λ s. (k s).1) db.sessions
        h.sessions_keyed;
  sessions_owned =
      All-update (IsOwned db.users) p f db.sessions (λ s o. rw (k s).2 o) h.sessions_owned;
}

pub filter-IsConsistent :
    (p : SessionRow → Bool) (db : Db)
    → IsConsistent db
    → IsConsistent (record db { sessions = where_ p db.sessions })
filter-IsConsistent p db h = record {
  users_keyed = h.users_keyed;
  users_readable = h.users_readable;
  sessions_keyed = where-IsKeyed session_id_of token_hash_of p db.sessions h.sessions_keyed;
  sessions_owned = All-where (IsOwned db.users) p db.sessions h.sessions_owned;
}
