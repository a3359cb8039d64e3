-- ===== src/DjangoOrm/SessionRepo.antt =====
-- app/infrastructure/db/django_orm/user_session_repo.py: `UserSessionDjangoRepo`. Every time is
-- that of the application's clock, `_utcnow()`, which a method reads once.
pub mod Owners
pub mod Tokens
pub mod Rewrites
pub mod Agrees
pub mod Limit
pub mod Keeps
use fast_api_ddd_template.Base.{
  ℕ, zero, suc, ◌+◌, Bool, true, false, not, ◌&&◌, ◌||◌, Option, none, some, List, [], ◌∷◌, ◌++◌,
  String, ◌==◌, leb, ltb, str_eq, first, drop, where_, update_where, count_where, map,
  if◌then◌else◌,
}
use fast_api_ddd_template.Domain.Errors.{Result, ok, err, value_error, other_error, integrity_error}
use fast_api_ddd_template.Database.{
  Time, UserRow, SessionRow, Db, Query, ◌>>=◌, ◌>>◌, pure, raise, select, flush,
}
use fast_api_ddd_template.Database.Schema.{check_session, has_session}
use fast_api_ddd_template.Database.SessionRepo.{
  Clocks, is_some, active_user, minutes, order_desc, new_session, revoke_all,
}
use fast_api_ddd_template.DjangoOrm.Rows.{aget}

-- `revoked_at__isnull=True, expires_at__gt=now`
abbrev pub is_live : Time → SessionRow → Bool
is_live now s = not (is_some s.revoked_at) && ltb now s.expires_at

-- The rows of the join of users with their sessions: a user once for each session that passes.
abbrev pub join_sessions : (SessionRow → Bool) → List SessionRow → List UserRow → List UserRow
join_sessions p sessions [] = []
join_sessions p sessions (r ∷ rs) =
    map (λ _. r) (where_ (λ (s : SessionRow). s.user_id == r.id && p s) sessions)
    ++ join_sessions p sessions rs

unfoldable pub get_user_if_session_valid : Clocks → ℕ → ℕ → Query (Option UserRow)
unfolding aget
get_user_if_session_valid c user_id session_id = aget λ db.
    join_sessions (λ s. s.id == session_id && is_live c.now s) db.sessions
      (where_ (active_user user_id) db.users)

unfoldable pub get_session_by_id : ℕ → Query (Option SessionRow)
unfolding aget
get_session_by_id session_id =
    aget λ db. where_ (λ (s : SessionRow). s.id == session_id) db.sessions

-- `select_related("user")`: the session with its user.
abbrev pub with_user : List UserRow → SessionRow → Option (UserRow × SessionRow)
with_user users s = elim (first (λ (r : UserRow). r.id == s.user_id) users) [
  | none ↦ none
  | some u ↦ if u.is_active then some (u, s) else none
]

unfoldable pub get_user_valid_session_by_refresh_token :
    Clocks → String → Query (Option (UserRow × SessionRow))
unfolding aget
get_user_valid_session_by_refresh_token c hash = do
  found ← aget λ db.
      where_ (λ (s : SessionRow). str_eq s.refresh_token_hash hash && is_live c.now s) db.sessions
  users ← select (λ db. db.users)
  pure (elim found [ none ↦ none | some s ↦ with_user users s ])

-- The sessions of the user that no one has revoked; they may have expired.
abbrev pub unrevoked_of : ℕ → SessionRow → Bool
unrevoked_of user_id s = s.user_id == user_id && not (is_some s.revoked_at)

unfoldable pub excess : ℕ → ℕ → List SessionRow → List SessionRow
unfolding order_desc
excess user_id keep sessions = drop keep (order_desc (where_ (unrevoked_of user_id) sessions))

-- `if excess_ids: ...aupdate(revoked_at=now)`
abbrev pub revoke_excess : Time → List SessionRow → Db → Result Db
revoke_excess now [] db = ok db
revoke_excess now (old ∷ more) db =
    ok (record db { sessions = revoke_all now (old ∷ more) db.sessions })

-- INSERT INTO user_sessions. The foreign key is checked when the transaction commits.
unfoldable pub insert_session : SessionRow → Db → Result Db
unfolding check_session
insert_session s db =
    if has_session s.id db.sessions
    then err (integrity_error "user_sessions_pkey")
    else elim (check_session s db.sessions) [
      | ok _ ↦ ok (record db { sessions = db.sessions ++ s ∷ [] })
      | err e ↦ err e
    ]

-- `create`. A negative index, from `max_sessions` at 0, is refused.
unfoldable pub create : Clocks → ℕ → ℕ → ℕ → ℕ → String → Query SessionRow
unfolding excess revoke_all insert_session
create c new_id user_id expiry_time zero hash =
    raise (value_error "Negative indexing is not supported.")
create c new_id user_id expiry_time (suc keep) hash = do
  old ← select (λ db. excess user_id keep db.sessions)
  flush (revoke_excess c.now old)
  flush (insert_session (new_session c new_id user_id expiry_time hash))
  pure (new_session c new_id user_id expiry_time hash)

-- `asave(update_fields=...)`, of a loaded session: the named fields of its row, which the
-- constraints must admit with its new values `s`; an error where the row is gone.
abbrev pub save : (SessionRow → SessionRow) → SessionRow → Db → Result Db
save f s db =
    if has_session s.id db.sessions
    then elim (check_session (f s) db.sessions) [
      | ok _ ↦
          ok
            (record db { sessions = update_where (λ (o : SessionRow). o.id == s.id) f db.sessions })
      | err e ↦ err e
    ]
    else err (other_error "Save with update_fields did not affect any rows.")

unfoldable pub rotate_refresh_token : Clocks → SessionRow → String → ℕ → Query (Unit {0})
unfolding check_session
rotate_refresh_token c s new_hash expiry_time = flush (
    save (λ o. record o { refresh_token_hash = new_hash; expires_at = minutes expiry_time + c.now })
      s)

abbrev pub set_revoked : Clocks → SessionRow → Query Bool
set_revoked c s = do flush (save (λ o. record o { revoked_at = some c.now }) s); pure true

unfoldable pub revoke : Clocks → ℕ → Query Bool
unfolding get_session_by_id check_session
revoke c session_id = do
  found ← get_session_by_id session_id
  elim found [
    | none ↦ pure false
    | some s ↦ if is_some s.revoked_at then pure false else set_revoked c s
  ]

unfoldable pub revoke_by_refresh_token : Clocks → String → Query Bool
unfolding get_user_valid_session_by_refresh_token check_session
revoke_by_refresh_token c hash = do
  found ← get_user_valid_session_by_refresh_token c hash
  elim found [ none ↦ pure false | some (u, s) ↦ set_revoked c s ]

-- `delete_expired`: the number of rows deleted.
abbrev pub is_dead : Time → SessionRow → Bool
is_dead now s = is_some s.revoked_at || leb s.expires_at now

unfoldable pub delete_expired : Clocks → Query ℕ
delete_expired c s = (
  ok (count_where (is_dead c.now) s.db.sessions),
  record s {
    db = record {
      users = s.db.users;
      sessions = where_ (λ (r : SessionRow). not (is_dead c.now r)) s.db.sessions;
    };
  },
)
