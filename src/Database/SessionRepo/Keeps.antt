-- ===== src/Database/SessionRepo/Keeps.antt =====
-- The invariant of the tables under the methods of `UserSessionORMRepo`.
use fast_api_ddd_template.Base.{
  ℕ, zero, suc, ◌≡◌, refl, Bool, true, false, not, if◌then◌else◌, Option, none, some, List, [], ◌∷◌,
  arith, All, All-first, first, String, eq_iff, Bool-cases, ◌⊎◌, inl, inr, subst,
}
use fast_api_ddd_template.Domain.Errors.{ok}
use fast_api_ddd_template.Database.{Time, UserRow, SessionRow, Db, Session, Query, pure, flush}
use fast_api_ddd_template.Database.Schema.{update_session}
use fast_api_ddd_template.Database.Invariant.{IsReadable, IsOwned, IsConsistent}
use fast_api_ddd_template.Database.Invariant.SessionWrites.{
  insert_session-IsConsistent, update_session-IsConsistent, rewrite-IsConsistent,
  filter-IsConsistent,
}
use fast_api_ddd_template.Database.Ensures.{
  Returns, Ensures, Ensures-pure, Ensures-raise, Ensures-flush, Ensures-bind, Ensures-read,
  flush-at, bind-at, Anything,
}
use fast_api_ddd_template.Database.SessionRepo.{
  Clocks, active_user, is_revoked, get_user_if_session_valid, session_by_id, is_some, join_by_hash,
  revoke_all, new_session, create_write, create, set_revoked, revoke, revoke_by_refresh_token,
  delete_expired,
}

pub create_write-IsConsistent :
    (c : Clocks) (user_id keep : ℕ) (s : SessionRow) (db db' : Db)
    → IsConsistent db
    → create_write c user_id keep s db ≡ ok db'
    → IsConsistent db'
unfolding create_write revoke_all
create_write-IsConsistent c user_id keep s db db' h e =
    insert_session-IsConsistent s _
      (rewrite-IsConsistent _ (λ (o : SessionRow). record o { revoked_at = some c.now }) db
        (λ o. (refl, refl, refl)) h)
      e

pub create-Ensures :
    (c : Clocks) (new_id user_id expiry_time max_sessions : ℕ) (hash : String)
    → Ensures Anything (create c new_id user_id expiry_time max_sessions hash)
unfolding create
create-Ensures c new_id user_id expiry_time zero hash = Ensures-raise _
create-Ensures c new_id user_id expiry_time (suc keep) hash =
    let s = new_session c new_id user_id expiry_time hash in
    Ensures-bind {P = Anything} (flush (create_write c user_id keep s)) (λ _. pure s)
      (Ensures-flush (create_write c user_id keep s) (create_write-IsConsistent c user_id keep s))
      (λ _ _. Ensures-pure s tt)

-- What is known of a pair of the join.
pub record IsJoined (t : Time) (hash : String) (users : List UserRow) (sessions : List SessionRow)
    (u : UserRow) (s : SessionRow) : Type 1 where
  pub is_active : u.is_active ≡ true
  pub is_owner : u.id ≡ s.user_id
  pub has_hash : s.refresh_token_hash ≡ hash
  pub is_live : is_revoked t s ≡ false
  -- What holds of all rows, holds of these.
  pub in_users : (P : UserRow → Type 0) → All P users → P u
  pub in_sessions : (P : SessionRow → Type 0) → All P sessions → P s

first-active :
    (i : ℕ) (users : List UserRow) (u : UserRow)
    → first (active_user i) users ≡ some u
    → (u.id ≡ i) × (u.is_active ≡ true)
first-active i [] u e = cc
first-active i (x ∷ xs) u e = ground (arith, first-active i xs u)

-- The rest of the join has the pair.
grow :
    (t : Time) (hash : String) (users : List UserRow) (x : SessionRow) (xs : List SessionRow)
    (u : UserRow) (s : SessionRow)
    → IsJoined t hash users xs u s
    → IsJoined t hash users (x ∷ xs) u s
grow t hash users x xs u s j = record {
  is_active = j.is_active;
  is_owner = j.is_owner;
  has_hash = j.has_hash;
  is_live = j.is_live;
  in_users = j.in_users;
  in_sessions = λ P h. j.in_sessions P h.1;
}

-- The head of the join.
here :
    (t : Time) (hash : String) (users : List UserRow) (xs : List SessionRow) (u : UserRow)
    (s : SessionRow)
    → first (active_user s.user_id) users ≡ some u
    → s.refresh_token_hash ≡ hash
    → is_revoked t s ≡ false
    → IsJoined t hash users (s ∷ xs) u s
here t hash users xs u s f h r =
    let a = first-active s.user_id users u f in
    record {
      is_active = a.1;
      is_owner = a.0;
      has_hash = h;
      is_live = r;
      in_users = λ P k. All-first P _ users u k f;
      in_sessions = λ P k. k.0;
    }

-- How the join of a list with a head comes to its first pair.
pub join-cases :
    (t : Time) (hash : String) (users : List UserRow) (x : SessionRow) (xs : List SessionRow)
    (u : UserRow) (s : SessionRow)
    → join_by_hash t hash users (x ∷ xs) ≡ some (u, s)
    → (join_by_hash t hash users xs ≡ some (u, s))
      ⊎ ((x ≡ s)
          × (first (active_user x.user_id) users ≡ some u)
          × (x.refresh_token_hash ≡ hash)
          × (is_revoked t x ≡ false))
join-cases t hash users x xs u s e = ground (arith, eq_iff x.refresh_token_hash hash)

pub join_by_hash-IsJoined :
    (t : Time) (hash : String) (users : List UserRow) (sessions : List SessionRow) (u : UserRow)
    (s : SessionRow)
    → join_by_hash t hash users sessions ≡ some (u, s)
    → IsJoined t hash users sessions u s
join_by_hash-IsJoined t hash users [] u s e = cc
join_by_hash-IsJoined t hash users (x ∷ xs) u s e = elim (join-cases t hash users x xs u s e) [
  | inl r ↦ grow t hash users x xs u s (join_by_hash-IsJoined t hash users xs u s r)
  | inr (q, f, h, l) ↦ subst (IsJoined t hash users (x ∷ xs) u) q (here t hash users xs u x f h l)
]

-- A session written over, its user kept.
pub rewrite_one-at :
    (r : SessionRow) (s : Session)
    → IsConsistent s.db
    → IsOwned s.db.users r
    → IsConsistent (flush (update_session r) s).1.db
      × Returns Anything (flush (update_session r) s).0
rewrite_one-at r s h o =
    flush-at (update_session r) s h (λ db' e. update_session-IsConsistent r s.db o h e)

set_revoked-at :
    (c : Clocks) (r : SessionRow) (s : Session)
    → IsConsistent s.db
    → IsOwned s.db.users r
    → IsConsistent (set_revoked c r s).1.db × Returns Anything (set_revoked c r s).0
set_revoked-at c r s h o =
    let r' = record r { revoked_at = some c.now } in
    bind-at (flush (update_session r')) (λ _. pure true) s (rewrite_one-at r' s h o)
      (λ _ _. Ensures-pure true tt)

-- What `revoke` does once it has looked for the session.
abbrev revoke_found : Clocks → Option SessionRow → Query Bool
revoke_found c none = pure false
revoke_found c (some s) = if is_some s.revoked_at then pure false else set_revoked c s

pub revoke-Ensures : (c : Clocks) (session_id : ℕ) → Ensures Anything (revoke c session_id)
unfolding revoke
revoke-Ensures c session_id = Ensures-read (session_by_id session_id) (revoke_found c) found
  where
    found :
        (s : Session) (o : Option SessionRow)
        → IsConsistent s.db
        → session_by_id session_id s.db ≡ o
        → IsConsistent (revoke_found c o s).1.db × Returns Anything (revoke_found c o s).0
    found s none h e = (h, tt)
    found s (some r) h e = elim (Bool-cases (is_some r.revoked_at)) [
      | inl t ↦ rw t (h, tt)
      | inr t ↦ rw t (
          set_revoked-at c r s h
            (All-first (IsOwned s.db.users) _ s.db.sessions r h.sessions_owned e))
    ]

abbrev revoke_joined : Clocks → Option (UserRow × SessionRow) → Query Bool
revoke_joined c none = pure false
revoke_joined c (some (u, s)) = set_revoked c s

pub revoke_by_refresh_token-Ensures :
    (c : Clocks) (hash : String) → Ensures Anything (revoke_by_refresh_token c hash)
unfolding revoke_by_refresh_token
revoke_by_refresh_token-Ensures c hash =
    Ensures-read (λ (db : Db). join_by_hash c.db_now hash db.users db.sessions) (revoke_joined c)
      found
  where
    found :
        (s : Session) (o : Option (UserRow × SessionRow))
        → IsConsistent s.db
        → join_by_hash c.db_now hash s.db.users s.db.sessions ≡ o
        → IsConsistent (revoke_joined c o s).1.db × Returns Anything (revoke_joined c o s).0
    found s none h e = (h, tt)
    found s (some (u, r)) h e =
        let j = join_by_hash-IsJoined c.db_now hash s.db.users s.db.sessions u r e in
        set_revoked-at c r s h (j.in_sessions (IsOwned s.db.users) h.sessions_owned)

pub delete_expired-Ensures : (c : Clocks) → Ensures Anything (delete_expired c)
unfolding delete_expired
delete_expired-Ensures c = record {
  at = λ s h. (filter-IsConsistent (λ (r : SessionRow). not (is_revoked c.db_now r)) s.db h, tt);
}

-- The user that a valid session gives is readable.
pub get_user_if_session_valid-Ensures :
    (c : Clocks) (user_id session_id : ℕ)
    → Ensures
        (λ (o : Option UserRow). (r : UserRow) → o ≡ some r → IsReadable r)
        (get_user_if_session_valid c user_id session_id)
unfolding get_user_if_session_valid
get_user_if_session_valid-Ensures c user_id session_id = record {
  at = λ s h. (h, λ r e. All-first IsReadable _ s.db.users r h.users_readable e);
}
