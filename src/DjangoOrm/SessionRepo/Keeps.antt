-- ===== src/DjangoOrm/SessionRepo/Keeps.antt =====
-- The invariant of the tables under the methods of `UserSessionDjangoRepo`.
use fast_api_ddd_template.Base.{
  ℕ, zero, suc, ◌≡◌, refl, arith, Bool, true, false, List, [], ◌∷◌, ◌++◌, String, Option, some,
  exists, subst, sym,
}
use fast_api_ddd_template.Domain.Errors.{Result, ok, err}
use fast_api_ddd_template.Database.{UserRow, SessionRow, Db, Session}
use fast_api_ddd_template.Database.Schema
use fast_api_ddd_template.Database.Schema.{has_user, update_session}
use fast_api_ddd_template.Database.Invariant.{IsConsistent, IsReadable}
use fast_api_ddd_template.Database.Invariant.SessionWrites.{
  insert_session-IsConsistent, rewrite-IsConsistent,
}
use fast_api_ddd_template.Database.Ensures.{Ensures, Anything}
use fast_api_ddd_template.Database.SessionRepo as Sql
use fast_api_ddd_template.Database.SessionRepo.{
  Clocks, minutes, revoke_all, new_session, join_by_hash,
}
use fast_api_ddd_template.Database.SessionRepo.Keeps.{
  revoke-Ensures, get_user_if_session_valid-Ensures,
}
use fast_api_ddd_template.DjangoOrm.UnitOfWork.{is_orphan}
use fast_api_ddd_template.DjangoOrm.UnitOfWork.Preserves.{IsSettled}
use fast_api_ddd_template.DjangoOrm.UserRepo.Keeps.{agreeing}
use fast_api_ddd_template.DjangoOrm.SessionRepo as Django
use fast_api_ddd_template.DjangoOrm.SessionRepo.{insert_session, excess, create, revoke_excess}
use fast_api_ddd_template.DjangoOrm.SessionRepo.Limit.{
  kept_rows, after_insert, create-db, insert_session-ok,
}
use fast_api_ddd_template.DjangoOrm.SessionRepo.Owners.{
  on_app_clock, get_user_if_session_valid-agree,
}
use fast_api_ddd_template.DjangoOrm.SessionRepo.Agrees.{revoke-agree}

pub get_user_if_session_valid_keeps :
    (c : Clocks) (user_id session_id : ℕ)
    → Ensures
        (λ (o : Option UserRow). (r : UserRow) → o ≡ some r → IsReadable r)
        (Django.get_user_if_session_valid c user_id session_id)
get_user_if_session_valid_keeps c user_id session_id =
    agreeing (Django.get_user_if_session_valid c user_id session_id)
      (Sql.get_user_if_session_valid (on_app_clock c) user_id session_id)
      (get_user_if_session_valid-agree c user_id session_id)
      (get_user_if_session_valid-Ensures (on_app_clock c) user_id session_id)

pub revoke_keeps : (c : Clocks) (session_id : ℕ) → Ensures Anything (Django.revoke c session_id)
revoke_keeps c session_id =
    agreeing (Django.revoke c session_id) (Sql.revoke (on_app_clock c) session_id)
      (revoke-agree c session_id) (revoke-Ensures (on_app_clock c) session_id)

-- An inserted session that has its user is one that SQLAlchemy would insert.
insert_owned :
    (r : SessionRow) (db db' : Db)
    → insert_session r db ≡ ok db'
    → has_user r.user_id db.users ≡ true
    → Schema.insert_session r db ≡ ok db'
unfolding insert_session Schema.insert_session
insert_owned r db db' h o = ground arith

last_owned :
    (q : SessionRow → Bool) (xs : List SessionRow) (r : SessionRow)
    → exists q (xs ++ r ∷ []) ≡ false
    → q r ≡ false
last_owned q [] r h = ground arith
last_owned q (x ∷ xs) r h = last_owned q xs r (ground arith)

-- Tables that are consistent unless a commit refuses them.
abbrev Settles : Db → Type 0
Settles db = exists (is_orphan db) db.sessions ≡ false → IsConsistent db

insert-Settles :
    (r : SessionRow) (db : Db) (w : Result Db)
    → IsConsistent db
    → insert_session r db ≡ w
    → Settles (after_insert db w)
insert-Settles r db (ok db') h e = λ o.
    let f = insert_session-ok r db e in
    let full = record db { sessions = db.sessions ++ r ∷ [] } in
    let none_orphan : exists (is_orphan full) full.sessions ≡ false =
      subst (λ (d : Db). exists (is_orphan d) d.sessions ≡ false) f.2 o in
    let owned : has_user r.user_id db.users ≡ true =
      ground (arith, last_owned (is_orphan full) db.sessions r none_orphan) in
    insert_session-IsConsistent r db h (insert_owned r db db' e owned)
insert-Settles r db (err x) h e = λ _. h

pub create_settles :
    (c : Clocks) (new_id user_id expiry_time max_sessions : ℕ) (hash : String) (s : Session)
    → IsConsistent s.db
    → IsSettled (create c new_id user_id expiry_time max_sessions hash s).1
unfolding create revoke_all
create_settles c new_id user_id expiry_time zero hash s h = λ _. h
create_settles c new_id user_id expiry_time (suc keep) hash s h =
    subst Settles (sym (create-db c new_id user_id expiry_time keep hash s)) (
      insert-Settles (new_session c new_id user_id expiry_time hash)
        (record s.db { sessions = kept_rows c user_id keep s.db }) _
        (rewrite-IsConsistent _ (λ (o : SessionRow). record o { revoked_at = some c.now }) s.db
          (λ o. (refl, refl, refl)) h)
        refl)
