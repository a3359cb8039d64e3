-- ===== src/Database/SessionRepo.antt =====
-- app/infrastructure/db/sqlalchemy/user_session_repo.py: `UserSessionORMRepo`. `func.now()`, the
-- clock of the database, and `_utcnow()`, the clock of the application, are given; so are the
-- ids that `uuid4` makes. A method reads each clock once.
pub mod Keeps
pub mod Limit
pub mod Order
pub mod Lookup
pub mod Rotation
use fast_api_ddd_template.Base.{
  ℕ, zero, suc, ◌+◌, ◌*◌, Bool, true, false, not, ◌&&◌, Option, none, some, List, [], ◌∷◌, ◌++◌,
  String, ◌==◌, leb, str_eq, first, drop, where_, exists, update_where, count_where, if◌then◌else◌,
}
use fast_api_ddd_template.Domain.Errors.{Result, ok, err, other_error}
use fast_api_ddd_template.Database.{
  Time, UserRow, SessionRow, Db, Session, Query, ◌>>=◌, ◌>>◌, pure, raise, select, flush,
}
use fast_api_ddd_template.Database.Schema.{check_session, insert_session, update_session}

-- `timedelta(minutes=n)`
abbrev pub minutes : ℕ → Time
minutes n = n * 60000000

-- The clocks at a call.
pub record Clocks : Type 0 where
  pub db_now : Time
  pub now : Time

abbrev pub is_some {ℓ} : {A : Type ℓ} → Option A → Bool
is_some none = false
is_some (some a) = true

-- `UserSessionORM.is_revoked`, at a time.
unfoldable pub is_revoked : Time → SessionRow → Bool
is_revoked t s = if is_some s.revoked_at then true else leb s.expires_at t

abbrev pub active_user : ℕ → UserRow → Bool
active_user i r = r.id == i && r.is_active

-- `get_user_if_session_valid`: the join of the user with a live session of theirs.
unfoldable pub get_user_if_session_valid : Clocks → ℕ → ℕ → Query (Option UserRow)
unfolding is_revoked
get_user_if_session_valid c user_id session_id = select λ db.
    first
      (λ (r : UserRow).
        active_user user_id r
        && exists
            (λ (s : SessionRow).
              s.user_id == r.id && s.id == session_id && not (is_revoked c.db_now s))
            db.sessions)
      db.users

abbrev pub session_by_id : ℕ → Db → Option SessionRow
session_by_id i db = first (λ (s : SessionRow). s.id == i) db.sessions

unfoldable pub get_session_by_id : ℕ → Query (Option SessionRow)
get_session_by_id session_id = select (session_by_id session_id)

-- The first pair of the join of live sessions under a hash with their active users.
abbrev pub join_by_hash :
    Time → String → List UserRow → List SessionRow → Option (UserRow × SessionRow)
join_by_hash t hash users [] = none
join_by_hash t hash users (s ∷ ss) =
    let rest = join_by_hash t hash users ss in
    if str_eq s.refresh_token_hash hash && not (is_revoked t s)
    then elim (first (active_user s.user_id) users) [ none ↦ rest | some u ↦ some (u, s) ]
    else rest

unfoldable pub get_user_valid_session_by_refresh_token :
    Clocks → String → Query (Option (UserRow × SessionRow))
unfolding is_revoked
get_user_valid_session_by_refresh_token c hash =
    select λ db. join_by_hash c.db_now hash db.users db.sessions

-- `ORDER BY expires_at DESC`: an insertion sort, rows that expire together in table order.
unfoldable pub insert_desc : SessionRow → List SessionRow → List SessionRow
insert_desc s [] = s ∷ []
insert_desc s (o ∷ os) = if leb o.expires_at s.expires_at then s ∷ o ∷ os else o ∷ insert_desc s os

unfoldable pub order_desc : List SessionRow → List SessionRow
unfolding insert_desc
order_desc [] = []
order_desc (s ∷ ss) = insert_desc s (order_desc ss)

-- The live sessions of a user.
abbrev pub live_of : Time → ℕ → SessionRow → Bool
live_of t user_id s = s.user_id == user_id && not (is_revoked t s)

-- The sessions that a login revokes: the live ones past the first `max_sessions - 1`.
unfoldable pub excess : Time → ℕ → ℕ → List SessionRow → List SessionRow
unfolding order_desc is_revoked
excess t user_id keep sessions = drop keep (order_desc (where_ (live_of t user_id) sessions))

abbrev pub listed : List SessionRow → SessionRow → Bool
listed old s = exists (λ (o : SessionRow). o.id == s.id) old

-- `for old_session in existing_sessions: old_session.revoked_at = now`
unfoldable pub revoke_all : Time → List SessionRow → List SessionRow → List SessionRow
revoke_all now old = update_where (listed old) (λ s. record s { revoked_at = some now })

-- What `create` flushes: the revocations and the new row.
unfoldable pub create_write : Clocks → ℕ → ℕ → SessionRow → Db → Result Db
unfolding excess revoke_all
create_write c user_id keep s db = insert_session s (record db {
  sessions = revoke_all c.now (excess c.db_now user_id keep db.sessions) db.sessions;
})

abbrev pub new_session : Clocks → ℕ → ℕ → ℕ → String → SessionRow
new_session c new_id user_id expiry_time hash = record {
  id = new_id;
  user_id = user_id;
  expires_at = minutes expiry_time + c.now;
  revoked_at = none;
  refresh_token_hash = hash;
}

-- `create`. A negative OFFSET, from `max_sessions` at 0, is an error of the database.
unfoldable pub create : Clocks → ℕ → ℕ → ℕ → ℕ → String → Query SessionRow
unfolding create_write
create c new_id user_id expiry_time zero hash = raise (other_error "OFFSET must not be negative")
create c new_id user_id expiry_time (suc keep) hash = do
  flush (create_write c user_id keep (new_session c new_id user_id expiry_time hash))
  pure (new_session c new_id user_id expiry_time hash)

unfoldable pub rotate_refresh_token : Clocks → SessionRow → String → ℕ → Query (Unit {0})
rotate_refresh_token c s new_hash expiry_time = flush (
    update_session
      (record s { refresh_token_hash = new_hash; expires_at = minutes expiry_time + c.now }))

-- `revoke`, and the end of `revoke_by_refresh_token`: set the time of revocation and flush.
abbrev pub set_revoked : Clocks → SessionRow → Query Bool
set_revoked c s = do flush (update_session (record s { revoked_at = some c.now })); pure true

unfoldable pub revoke : Clocks → ℕ → Query Bool
revoke c session_id = do
  found ← select (session_by_id session_id)
  elim found [
    | none ↦ pure false
    | some s ↦ if is_some s.revoked_at then pure false else set_revoked c s
  ]

unfoldable pub revoke_by_refresh_token : Clocks → String → Query Bool
unfolding get_user_valid_session_by_refresh_token
revoke_by_refresh_token c hash = do
  found ← get_user_valid_session_by_refresh_token c hash
  elim found [ none ↦ pure false | some (u, s) ↦ set_revoked c s ]

-- `delete_expired`: the number of rows deleted.
unfoldable pub delete_expired : Clocks → Query ℕ
unfolding is_revoked
delete_expired c s = (
  ok (count_where (is_revoked c.db_now) s.db.sessions),
  record s {
    db = record {
      users = s.db.users;
      sessions = where_ (λ (r : SessionRow). not (is_revoked c.db_now r)) s.db.sessions;
    };
  },
)
