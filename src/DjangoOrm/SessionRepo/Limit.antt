-- ===== src/DjangoOrm/SessionRepo/Limit.antt =====
-- The sessions of a user that are not revoked, as `UserSessionDjangoRepo.create` leaves them.
use fast_api_ddd_template.Base.{
  ℕ, zero, suc, ◌≤◌, ◌≡◌, refl, arith, ap, List, [], ◌∷◌, ◌++◌, String, drop, where_, count_where,
  false,
}
use fast_api_ddd_template.Domain.Errors.{Result, ok, err}
use fast_api_ddd_template.Database.{Time, SessionRow, Db, Session}
use fast_api_ddd_template.Database.Schema.{has_session, check_session}
use fast_api_ddd_template.Database.SessionRepo.{Clocks, order_desc, revoke_all, new_session}
use fast_api_ddd_template.Database.SessionRepo.Limit.{
  unlisted, count_where-order_desc, count_where-drop, count_where-unlisted, count_where-append,
}
use fast_api_ddd_template.DjangoOrm.SessionRepo.{
  unrevoked_of, excess, revoke_excess, insert_session, create,
}

-- The number of sessions of a user that are not revoked.
abbrev pub unrevoked_count : ℕ → List SessionRow → ℕ
unrevoked_count user_id sessions = count_where (unrevoked_of user_id) sessions

revoke_all-nil : (now : Time) (xs : List SessionRow) → revoke_all now [] xs ≡ xs
unfolding revoke_all
revoke_all-nil now [] = refl
revoke_all-nil now (x ∷ xs) = ap (λ (ys : List SessionRow). x ∷ ys) (revoke_all-nil now xs)

-- Whether or not there are sessions to revoke.
pub revoke_excess-eq :
    (now : Time) (old : List SessionRow) (db : Db)
    → revoke_excess now old db ≡ ok (record db { sessions = revoke_all now old db.sessions })
revoke_excess-eq now [] db = rw (revoke_all-nil now db.sessions)
revoke_excess-eq now (x ∷ xs) db = refl

unrevoked_count-revoke_all :
    (now : Time) (user_id : ℕ) (old xs : List SessionRow)
    → unrevoked_count user_id (revoke_all now old xs)
      ≡ count_where (unlisted old) (where_ (unrevoked_of user_id) xs)
unfolding revoke_all
unrevoked_count-revoke_all now user_id old [] = refl
unrevoked_count-revoke_all now user_id old (x ∷ xs) =
    ground (arith, unrevoked_count-revoke_all now user_id old xs)

unrevoked_count-excess :
    (now : Time) (user_id keep : ℕ) (xs : List SessionRow)
    → unrevoked_count user_id (revoke_all now (excess user_id keep xs) xs) ≤ keep
unfolding excess
unrevoked_count-excess now user_id keep xs =
    let open_ones = where_ (unrevoked_of user_id) xs in
    let old = drop keep (order_desc open_ones) in
    omega (
      arith,
      unrevoked_count-revoke_all now user_id old xs,
      count_where-order_desc (unlisted old) open_ones,
      count_where-drop (unlisted old) keep (order_desc open_ones),
      count_where-unlisted old,
    )

-- The sessions before the new one is inserted.
abbrev pub kept_rows : Clocks → ℕ → ℕ → Db → List SessionRow
kept_rows c user_id keep db = revoke_all c.now (excess user_id keep db.sessions) db.sessions

pub insert_session-ok :
    (s : SessionRow) (db : Db) {db' : Db}
    → insert_session s db ≡ ok db'
    → (has_session s.id db.sessions ≡ false)
      × (check_session s db.sessions ≡ ok tt)
      × (db' ≡ record db { sessions = db.sessions ++ s ∷ [] })
unfolding insert_session
insert_session-ok s db h = ground arith

-- How `create` returns: the new row is admitted beside the rows kept.
pub create-ok :
    (c : Clocks) (new_id user_id expiry_time keep : ℕ) (hash : String) (s s' : Session)
    (r : SessionRow)
    → create c new_id user_id expiry_time (suc keep) hash s ≡ (ok r, s')
    → (insert_session
          (new_session c new_id user_id expiry_time hash)
          (record s.db { sessions = kept_rows c user_id keep s.db })
        ≡ ok s'.db)
      × (r ≡ new_session c new_id user_id expiry_time hash)
unfolding create
create-ok c new_id user_id expiry_time keep hash s s' r h =
    let row = new_session c new_id user_id expiry_time hash in
    let db = record s.db { sessions = kept_rows c user_id keep s.db } in
    go (insert_session row db) refl
  where
    go :
        (w : Result Db)
        → insert_session
            (new_session c new_id user_id expiry_time hash)
            (record s.db { sessions = kept_rows c user_id keep s.db })
          ≡ w
        → (w ≡ ok s'.db) × (r ≡ new_session c new_id user_id expiry_time hash)
    go (ok db) e =
        ground (arith, h, e, revoke_excess-eq c.now (excess user_id keep s.db.sessions) s.db)
    go (err x) e =
        ground (arith, h, e, revoke_excess-eq c.now (excess user_id keep s.db.sessions) s.db)

-- The tables that an insert leaves.
abbrev pub after_insert : Db → Result Db → Db
after_insert db (ok db') = db'
after_insert db (err e) = db

pub create-db :
    (c : Clocks) (new_id user_id expiry_time keep : ℕ) (hash : String) (s : Session)
    → (create c new_id user_id expiry_time (suc keep) hash s).1.db
      ≡ after_insert
          (record s.db { sessions = kept_rows c user_id keep s.db })
          (insert_session
            (new_session c new_id user_id expiry_time hash)
            (record s.db { sessions = kept_rows c user_id keep s.db }))
unfolding create
create-db c new_id user_id expiry_time keep hash s =
    let row = new_session c new_id user_id expiry_time hash in
    let db = record s.db { sessions = kept_rows c user_id keep s.db } in
    go (insert_session row db) refl
  where
    go :
        (w : Result Db)
        → insert_session
            (new_session c new_id user_id expiry_time hash)
            (record s.db { sessions = kept_rows c user_id keep s.db })
          ≡ w
        → (create c new_id user_id expiry_time (suc keep) hash s).1.db
          ≡ after_insert (record s.db { sessions = kept_rows c user_id keep s.db }) w
    go (ok db) e =
        ground (arith, e, revoke_excess-eq c.now (excess user_id keep s.db.sessions) s.db)
    go (err x) e =
        ground (arith, e, revoke_excess-eq c.now (excess user_id keep s.db.sessions) s.db)

-- When `create` returns, whatever the tables were, at most `max_sessions` sessions of the user are
-- not revoked, expired ones included.
pub create-unrevoked_count :
    (c : Clocks) (new_id user_id expiry_time max_sessions : ℕ) (hash : String) (s s' : Session)
    (r : SessionRow)
    → create c new_id user_id expiry_time max_sessions hash s ≡ (ok r, s')
    → unrevoked_count user_id s'.db.sessions ≤ max_sessions
unfolding create
create-unrevoked_count c new_id user_id expiry_time zero hash s s' r h = ground (arith, h)
create-unrevoked_count c new_id user_id expiry_time (suc keep) hash s s' r h =
    let f = create-ok c new_id user_id expiry_time keep hash s s' r h in
    let row = new_session c new_id user_id expiry_time hash in
    let db = record s.db { sessions = kept_rows c user_id keep s.db } in
    rw (insert_session-ok row db f.0).2 (
      omega (
        arith,
        unrevoked_count-excess c.now user_id keep s.db.sessions,
        count_where-append (unrevoked_of user_id) (kept_rows c user_id keep s.db) row,
      ))
