-- ===== src/DjangoOrm/SessionRepo/Tokens.antt =====
-- The session of a refresh token: `UserSessionDjangoRepo` against `UserSessionORMRepo`.
use fast_api_ddd_template.Base.{
  ◌≡◌, refl, sym, arith, ap, ◌∙◌, Bool, false, ◌&&◌, Option, none, some, List, [], ◌∷◌, ◌==◌,
  str_eq, eq_iff, exists, first, where_, Bool-cases, inl, inr, String,
}
use fast_api_ddd_template.Base.Keyed.{IsKeyed}
use fast_api_ddd_template.Base.Unique.{to_list, where-by_key, first-and, exists_of}
use fast_api_ddd_template.Domain.Errors.{ok}
use fast_api_ddd_template.Database
use fast_api_ddd_template.Database.{UserRow, SessionRow, Session, Query, Db, Time}
use fast_api_ddd_template.Database.Invariant.{
  IsConsistent, user_id_of, username_of, session_id_of, token_hash_of,
}
use fast_api_ddd_template.Database.SessionRepo as Sql
use fast_api_ddd_template.Database.SessionRepo.{
  Clocks, active_user, is_revoked, is_some, join_by_hash, session_by_id,
}
use fast_api_ddd_template.DjangoOrm.Rows.{only}
use fast_api_ddd_template.DjangoOrm.SessionRepo as Django
use fast_api_ddd_template.DjangoOrm.SessionRepo.{is_live, is_dead, join_sessions, with_user, save}
use fast_api_ddd_template.DjangoOrm.SessionRepo.Owners.{on_app_clock, live_iff}

-- The session of a hash, with its user.
join_none :
    (t : Time) (hash : String) (users : List UserRow) (xs : List SessionRow)
    → exists (λ (s : SessionRow). str_eq s.refresh_token_hash hash && is_live t s) xs ≡ false
    → join_by_hash t hash users xs ≡ none
join_none t hash users [] h = refl
join_none t hash users (x ∷ xs) h = ground (arith, live_iff t x, join_none t hash users xs)

abbrev paired : List UserRow → Option SessionRow → Option (UserRow × SessionRow)
paired users none = none
paired users (some s) = with_user users s

active_owner :
    (users : List UserRow) (s : SessionRow)
    → IsKeyed user_id_of username_of users
    → with_user users s
      ≡ elim (first (active_user s.user_id) users) [ none ↦ none | some u ↦ some (u, s) ]
active_owner users s h = ground (
  arith,
  first-and user_id_of username_of s.user_id (λ (r : UserRow). r.id == s.user_id) (λ x e. e)
      (λ r. r.is_active) users h,
)

join-first :
    (t : Time) (hash : String) (users : List UserRow) (xs : List SessionRow)
    → IsKeyed user_id_of username_of users
    → IsKeyed session_id_of token_hash_of xs
    → join_by_hash t hash users xs
      ≡ paired users
          (first (λ (s : SessionRow). str_eq s.refresh_token_hash hash && is_live t s) xs)
join-first t hash users [] k h = refl
join-first t hash users (x ∷ xs) k h =
    elim (Bool-cases (str_eq x.refresh_token_hash hash && is_live t x)) [
      | inl e ↦
          let others : exists (λ (s : SessionRow). str_eq s.refresh_token_hash hash && is_live t s)
                xs
              ≡ false =
            exists_of _ (λ (s : SessionRow). str_eq s.refresh_token_hash x.refresh_token_hash) xs
              (λ y q. ground (
                arith,
                e,
                q,
                eq_iff x.refresh_token_hash hash,
                eq_iff y.refresh_token_hash hash,
                eq_iff y.refresh_token_hash x.refresh_token_hash,
              ))
              h.1 in
          ground (arith, e, live_iff t x, active_owner users x k, join_none t hash users xs others)
      | inr e ↦ ground (arith, e, live_iff t x, join-first t hash users xs k h.2)
    ]

asked :
    (o : Option SessionRow) (rows : List SessionRow) (s : Session)
    → rows ≡ to_list o
    → Database.◌>>=◌
        (only rows)
        (λ found.
          Database.◌>>=◌
            (Database.select (λ db. db.users))
            (λ users. Database.pure (elim found [ none ↦ none | some r ↦ with_user users r ])))
        s
      ≡ (ok (paired s.db.users o), s)
asked none rows s e = rw e
asked (some r) rows s e = rw e

pub get_by_token-agree :
    (c : Clocks) (hash : String) (s : Session)
    → IsConsistent s.db
    → Django.get_user_valid_session_by_refresh_token c hash s
      ≡ Sql.get_user_valid_session_by_refresh_token (on_app_clock c) hash s
unfolding Django.get_user_valid_session_by_refresh_token Sql.get_user_valid_session_by_refresh_token
get_by_token-agree c hash s h =
    let live : SessionRow → Bool = λ r. str_eq r.refresh_token_hash hash && is_live c.now r in
    let q = join-first c.now hash s.db.users s.db.sessions h.users_keyed h.sessions_keyed in
    asked (first live s.db.sessions) (where_ live s.db.sessions) s (
      where-by_key session_id_of token_hash_of hash live (λ x e. ground (arith, e)) _
        h.sessions_keyed)
    ∙ ap (λ (o : Option (UserRow × SessionRow)). (ok o, s)) (sym q)
