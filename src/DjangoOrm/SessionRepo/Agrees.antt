-- ===== src/DjangoOrm/SessionRepo/Agrees.antt =====
-- `UserSessionDjangoRepo` against `UserSessionORMRepo`.
use mathlib.Core.Path.{fun_ext}
use fast_api_ddd_template.Base.{
  subst, ◌+◌, ◌≡◌, refl, sym, arith, ap, Bool, not, some, List, [], ◌∷◌, ◌==◌, first, where_,
  count_where, Option-cases, inl, inr, ℕ, String,
}
use fast_api_ddd_template.Domain.Errors.{ok}
use fast_api_ddd_template.Database.{SessionRow, Session}
use fast_api_ddd_template.Database.Invariant.{IsConsistent}
use fast_api_ddd_template.Database.SessionRepo as Sql
use fast_api_ddd_template.Database.SessionRepo.{
  Clocks, active_user, is_revoked, is_some, join_by_hash, session_by_id, minutes,
}
use fast_api_ddd_template.Database.SessionRepo.Keeps.{join_by_hash-IsJoined}
use fast_api_ddd_template.DjangoOrm.UserRepo.Agrees.{Agree}
use fast_api_ddd_template.DjangoOrm.SessionRepo as Django
use fast_api_ddd_template.DjangoOrm.SessionRepo.{is_live, is_dead, join_sessions, with_user, save}
use fast_api_ddd_template.DjangoOrm.SessionRepo.Owners.{
  on_app_clock, dead_iff, get_session_by_id-agree, get_user_if_session_valid-agree,
}
use fast_api_ddd_template.DjangoOrm.SessionRepo.Tokens.{get_by_token-agree}
use fast_api_ddd_template.DjangoOrm.SessionRepo.Rewrites.{save-update_session, each_found}

pub rotate-agree :
    (c : Clocks) (r : SessionRow) (new_hash : String) (expiry_time : ℕ) (s : Session)
    → IsConsistent s.db
    → session_by_id r.id s.db ≡ some r
    → Django.rotate_refresh_token c r new_hash expiry_time s
      ≡ Sql.rotate_refresh_token (on_app_clock c) r new_hash expiry_time s
unfolding Django.rotate_refresh_token Sql.rotate_refresh_token
rotate-agree c r new_hash expiry_time s h e = ground (
  arith,
  save-update_session
      (λ o. record o { refresh_token_hash = new_hash; expires_at = minutes expiry_time + c.now }) r
      s.db (λ o. refl) h e,
)

set_revoked-agree :
    (c : Clocks) (r : SessionRow) (s : Session)
    → IsConsistent s.db
    → session_by_id r.id s.db ≡ some r
    → Django.set_revoked c r s ≡ Sql.set_revoked c r s
set_revoked-agree c r s h e =
    ground (
      arith,
      save-update_session (λ o. record o { revoked_at = some c.now }) r s.db (λ o. refl) h e,
    )

found_id :
    (i : ℕ) (xs : List SessionRow) (r : SessionRow)
    → first (λ (o : SessionRow). o.id == i) xs ≡ some r
    → r.id ≡ i
found_id i [] r e = cc
found_id i (x ∷ xs) r e = ground (arith, found_id i xs r)

pub revoke-agree :
    (c : Clocks) (i : ℕ) (s : Session)
    → IsConsistent s.db
    → Django.revoke c i s ≡ Sql.revoke (on_app_clock c) i s
unfolding Django.revoke Sql.revoke Sql.get_session_by_id
revoke-agree c i s h = elim (Option-cases (session_by_id i s.db)) [
  | inl e ↦ ground (arith, e, get_session_by_id-agree i s h)
  | inr (r, e) ↦
      let k = found_id i s.db.sessions r e in
      ground (
        arith,
        e,
        get_session_by_id-agree i s h,
        set_revoked-agree c r s h (subst (λ (n : ℕ). session_by_id n s.db ≡ some r) (sym k) e),
      )
]

revoke_by_token-agree :
    (c : Clocks) (hash : String) (s : Session)
    → IsConsistent s.db
    → Django.revoke_by_refresh_token c hash s ≡ Sql.revoke_by_refresh_token (on_app_clock c) hash s
unfolding Django.revoke_by_refresh_token Sql.revoke_by_refresh_token
    Sql.get_user_valid_session_by_refresh_token
revoke_by_token-agree c hash s h =
    elim (Option-cases (join_by_hash c.now hash s.db.users s.db.sessions)) [
      | inl e ↦ ground (arith, e, get_by_token-agree c hash s h)
      | inr ((u, r), e) ↦
          let j = join_by_hash-IsJoined c.now hash s.db.users s.db.sessions u r e in
          ground (
            arith,
            e,
            get_by_token-agree c hash s h,
            set_revoked-agree c r s h (j.in_sessions _ (each_found s.db.sessions h.sessions_keyed)),
          )
    ]

delete_expired-agree :
    (c : Clocks) (s : Session) → Django.delete_expired c s ≡ Sql.delete_expired (on_app_clock c) s
unfolding Django.delete_expired Sql.delete_expired
delete_expired-agree c s =
    ap
      (λ (dead : SessionRow → Bool). (
        ok (count_where dead s.db.sessions),
        record s {
          db = record {
            users = s.db.users;
            sessions = where_ (λ (r : SessionRow). not (dead r)) s.db.sessions;
          };
        },
      ))
      (fun_ext (dead_iff c.now))

-- On consistent tables, the methods of `UserSessionDjangoRepo`, `create` apart, do what those of
-- `UserSessionORMRepo` do where the clock of the database shows the application's time: they
-- return the same and leave the same session, `rotate_refresh_token` on a session of the table.
pub session_repository-agrees :
    (c : Clocks) (s : Session) (user_id i : ℕ) (hash : String) (r : SessionRow) (expiry_time : ℕ)
    → IsConsistent s.db
    → session_by_id r.id s.db ≡ some r
    → Agree s
        (Django.get_user_if_session_valid c user_id i)
        (Sql.get_user_if_session_valid (on_app_clock c) user_id i)
      × Agree s (Django.get_session_by_id i) (Sql.get_session_by_id i)
      × Agree s
          (Django.get_user_valid_session_by_refresh_token c hash)
          (Sql.get_user_valid_session_by_refresh_token (on_app_clock c) hash)
      × Agree s
          (Django.rotate_refresh_token c r hash expiry_time)
          (Sql.rotate_refresh_token (on_app_clock c) r hash expiry_time)
      × Agree s (Django.revoke c i) (Sql.revoke (on_app_clock c) i)
      × Agree s
          (Django.revoke_by_refresh_token c hash)
          (Sql.revoke_by_refresh_token (on_app_clock c) hash)
      × Agree s (Django.delete_expired c) (Sql.delete_expired (on_app_clock c))
session_repository-agrees c s user_id i hash r expiry_time h e = (
  get_user_if_session_valid-agree c user_id i s h,
  get_session_by_id-agree i s h,
  get_by_token-agree c hash s h,
  rotate-agree c r hash expiry_time s h e,
  revoke-agree c i s h,
  revoke_by_token-agree c hash s h,
  delete_expired-agree c s,
)
