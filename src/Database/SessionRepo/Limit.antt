-- ===== src/Database/SessionRepo/Limit.antt =====
-- The live sessions of a user, as `UserSessionORMRepo.create` leaves them.
use fast_api_ddd_template.Base.{
  ℕ, zero, suc, ◌+◌, ◌≤◌, ◌≡◌, refl, arith, Bool, not, List, [], ◌∷◌, ◌++◌, String, drop, where_,
  count_where,
}
use fast_api_ddd_template.Domain.Errors.{Result, ok, err}
use fast_api_ddd_template.Database.{Time, SessionRow, Db, Session}
use fast_api_ddd_template.Database.Invariant.SessionWrites.{insert_session-ok}
use fast_api_ddd_template.Database.SessionRepo.{
  Clocks, is_revoked, live_of, insert_desc, order_desc, excess, listed, revoke_all, create_write,
  new_session, create,
}

-- The number of live sessions of a user at a time.
abbrev pub live_count : Time → ℕ → List SessionRow → ℕ
live_count t user_id sessions = count_where (live_of t user_id) sessions

count_where-insert_desc :
    (q : SessionRow → Bool) (x : SessionRow) (xs : List SessionRow)
    → count_where q (insert_desc x xs) ≡ count_where q (x ∷ xs)
unfolding insert_desc
count_where-insert_desc q x [] = refl
count_where-insert_desc q x (o ∷ os) = ground (arith, count_where-insert_desc q x os)

pub count_where-order_desc :
    (q : SessionRow → Bool) (xs : List SessionRow)
    → count_where q (order_desc xs) ≡ count_where q xs
unfolding order_desc
count_where-order_desc q [] = refl
count_where-order_desc q (x ∷ xs) =
    ground (arith, count_where-insert_desc q x (order_desc xs), count_where-order_desc q xs)

pub count_where-drop :
    (q : SessionRow → Bool) (n : ℕ) (xs : List SessionRow)
    → count_where q xs ≤ n + count_where q (drop n xs)
count_where-drop q zero xs = omega arith
count_where-drop q (suc n) [] = omega arith
count_where-drop q (suc n) (x ∷ xs) = ground (arith, count_where-drop q n xs)

abbrev pub unlisted : List SessionRow → SessionRow → Bool
unlisted old s = not (listed old s)

-- A longer list leaves fewer rows unlisted.
count_where-unlisted_cons :
    (o : SessionRow) (old xs : List SessionRow)
    → count_where (unlisted (o ∷ old)) xs ≤ count_where (unlisted old) xs
count_where-unlisted_cons o old [] = omega arith
count_where-unlisted_cons o old (x ∷ xs) = ground (arith, count_where-unlisted_cons o old xs)

-- No row of a list is unlisted in it.
pub count_where-unlisted : (old : List SessionRow) → count_where (unlisted old) old ≡ 0
count_where-unlisted [] = refl
count_where-unlisted (x ∷ xs) =
    ground (arith, count_where-unlisted_cons x xs xs, count_where-unlisted xs)

-- Of the live rows, the revocation leaves those that are not listed.
live_count-revoke_all :
    (t now : Time) (user_id : ℕ) (old xs : List SessionRow)
    → live_count t user_id (revoke_all now old xs)
      ≡ count_where (unlisted old) (where_ (live_of t user_id) xs)
unfolding revoke_all is_revoked
live_count-revoke_all t now user_id old [] = refl
live_count-revoke_all t now user_id old (x ∷ xs) =
    ground (arith, live_count-revoke_all t now user_id old xs)

-- After the revocations at most `keep` sessions of the user are live.
live_count-excess :
    (t now : Time) (user_id keep : ℕ) (xs : List SessionRow)
    → live_count t user_id (revoke_all now (excess t user_id keep xs) xs) ≤ keep
unfolding excess
live_count-excess t now user_id keep xs =
    let live = where_ (live_of t user_id) xs in
    let old = drop keep (order_desc live) in
    omega (
      arith,
      live_count-revoke_all t now user_id old xs,
      count_where-order_desc (unlisted old) live,
      count_where-drop (unlisted old) keep (order_desc live),
      count_where-unlisted old,
    )

pub count_where-append :
    (q : SessionRow → Bool) (xs : List SessionRow) (r : SessionRow)
    → count_where q (xs ++ r ∷ []) ≤ 1 + count_where q xs
count_where-append q [] r = ground arith
count_where-append q (x ∷ xs) r = ground (arith, count_where-append q xs r)

create_write-live_count :
    (c : Clocks) (user_id keep : ℕ) (s : SessionRow) (db db' : Db)
    → create_write c user_id keep s db ≡ ok db'
    → live_count c.db_now user_id db'.sessions ≤ suc keep
unfolding create_write
create_write-live_count c user_id keep s db db' h =
    let rows = revoke_all c.now (excess c.db_now user_id keep db.sessions) db.sessions in
    let f = insert_session-ok s (record db { sessions = rows }) h in
    rw f.3 (
      omega (
        arith,
        live_count-excess c.db_now c.now user_id keep db.sessions,
        count_where-append (live_of c.db_now user_id) rows s,
      ))

-- How `create` returns: the write is admitted, and the new session is returned.
pub create-ok :
    (c : Clocks) (new_id user_id expiry_time keep : ℕ) (hash : String) (s s' : Session)
    (r : SessionRow)
    → create c new_id user_id expiry_time (suc keep) hash s ≡ (ok r, s')
    → (create_write c user_id keep (new_session c new_id user_id expiry_time hash) s.db ≡ ok s'.db)
      × (r ≡ new_session c new_id user_id expiry_time hash)
unfolding create
create-ok c new_id user_id expiry_time keep hash s s' r h =
    go (create_write c user_id keep (new_session c new_id user_id expiry_time hash) s.db) refl
  where
    go :
        (w : Result Db)
        → create_write c user_id keep (new_session c new_id user_id expiry_time hash) s.db ≡ w
        → (create_write c user_id keep (new_session c new_id user_id expiry_time hash) s.db
            ≡ ok s'.db)
          × (r ≡ new_session c new_id user_id expiry_time hash)
    go (ok db) e = ground (arith, h, e)
    go (err x) e = ground (arith, h, e)

-- When `create` returns, whatever the tables were, at most `max_sessions` sessions of the user
-- are live by the clock of the database.
pub create-live_count :
    (c : Clocks) (new_id user_id expiry_time max_sessions : ℕ) (hash : String) (s s' : Session)
    (r : SessionRow)
    → create c new_id user_id expiry_time max_sessions hash s ≡ (ok r, s')
    → live_count c.db_now user_id s'.db.sessions ≤ max_sessions
unfolding create
create-live_count c new_id user_id expiry_time zero hash s s' r h = ground (arith, h)
create-live_count c new_id user_id expiry_time (suc keep) hash s s' r h =
    create_write-live_count c user_id keep _ s.db s'.db
      (create-ok c new_id user_id expiry_time keep hash s s' r h).0
