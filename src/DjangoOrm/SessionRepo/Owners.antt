-- ===== src/DjangoOrm/SessionRepo/Owners.antt =====
-- The user of a valid session: `UserSessionDjangoRepo` against `UserSessionORMRepo`.
use mathlib.Core.Path.{fun_ext}
use fast_api_ddd_template.Base.{
  ◌≡◌, refl, arith, ap, ◌∙◌, Bool, true, not, ◌&&◌, Option, none, some, List, [], ◌∷◌, ◌++◌, ◌==◌,
  exists, first, where_, ℕ, map, if◌then◌else◌,
}
use fast_api_ddd_template.Base.Keyed.{IsKeyed}
use fast_api_ddd_template.Base.Unique.{to_list, where-by_id, first-and}
use fast_api_ddd_template.Database.{UserRow, SessionRow, Session, Db, Time}
use fast_api_ddd_template.Database.Invariant.{
  IsConsistent, user_id_of, username_of, session_id_of, token_hash_of,
}
use fast_api_ddd_template.Database.SessionRepo as Sql
use fast_api_ddd_template.Database.SessionRepo.{
  Clocks, active_user, is_revoked, is_some, join_by_hash, session_by_id,
}
use fast_api_ddd_template.DjangoOrm.UserRepo.Agrees.{aget-first, only-to_list}
use fast_api_ddd_template.DjangoOrm.SessionRepo as Django
use fast_api_ddd_template.DjangoOrm.SessionRepo.{is_live, is_dead, join_sessions, with_user, save}

-- The clocks of a database that shows the time of the application.
abbrev pub on_app_clock : Clocks → Clocks
on_app_clock c = record { db_now = c.now; now = c.now }

pub live_iff : (t : Time) (s : SessionRow) → is_live t s ≡ not (is_revoked t s)
unfolding is_revoked
live_iff t s = ground arith

pub dead_iff : (t : Time) (s : SessionRow) → is_dead t s ≡ is_revoked t s
unfolding is_revoked
dead_iff t s = ground arith

pub get_session_by_id-agree :
    (i : ℕ) (s : Session)
    → IsConsistent s.db
    → Django.get_session_by_id i s ≡ Sql.get_session_by_id i s
unfolding Django.get_session_by_id Sql.get_session_by_id
get_session_by_id-agree i s h =
    aget-first (λ db. where_ (λ (r : SessionRow). r.id == i) db.sessions) (session_by_id i) s
      (where-by_id session_id_of token_hash_of i _ (λ _ e. e) _ h.sessions_keyed)

pub exists_of_first : {A : Type 0} (q : A → Bool) (xs : List A) → exists q xs ≡ is_some (first q xs)
exists_of_first q [] = refl
exists_of_first q (x ∷ xs) = ground (arith, exists_of_first q xs)

module _ (p : SessionRow → Bool) (sessions : List SessionRow) where
  abbrev owns : UserRow → SessionRow → Bool
  owns r s = s.user_id == r.id && p s

  -- The user, if one of the sessions is theirs and passes.
  abbrev owner : Option UserRow → Option UserRow
  owner none = none
  owner (some r) = if exists (owns r) sessions then some r else none

  owner_elim :
      (o : Option UserRow)
      → (let q : Option UserRow = elim o [
        | none ↦ none
        | some r ↦ if exists (owns r) sessions then some r else none
      ] in
          q)
        ≡ owner o
  owner_elim none = refl
  owner_elim (some r) = refl

  one_match :
      (r : UserRow) (o : Option SessionRow)
      → exists (owns r) sessions ≡ is_some o
      → map (λ (_ : SessionRow). r) (to_list o) ++ [] ≡ to_list (owner (some r))
  one_match r none e = rw e
  one_match r (some y) e = rw e

  joined :
      (i : ℕ)
      → ((x : SessionRow) → p x ≡ true → (x.id == i) ≡ true)
      → IsKeyed session_id_of token_hash_of sessions
      → (o : Option UserRow) → join_sessions p sessions (to_list o) ≡ to_list (owner o)
  joined i of_id k none = refl
  joined i of_id k (some r) =
      rw
        (where-by_id session_id_of token_hash_of i (owns r) (λ x e. of_id x (ground (arith, e)))
          sessions k)
        (one_match r (first (owns r) sessions) (exists_of_first (owns r) sessions))

-- A live session of an id.
abbrev is_valid : Time → ℕ → SessionRow → Bool
is_valid t i s = s.id == i && is_live t s

module _ (c : Clocks) (user_id session_id : ℕ) (db : Db) (h : IsConsistent db) where
  abbrev valid_owner : Option UserRow
  valid_owner = owner (is_valid c.now session_id) db.sessions (first (active_user user_id) db.users)

  django_rows :
      join_sessions (is_valid c.now session_id) db.sessions (where_ (active_user user_id) db.users)
      ≡ to_list valid_owner
  django_rows =
      ap (join_sessions (is_valid c.now session_id) db.sessions) (
        where-by_id user_id_of username_of user_id (active_user user_id) (λ x e. ground (arith, e))
          db.users h.users_keyed)
      ∙ joined (is_valid c.now session_id) db.sessions session_id (λ x e. ground (arith, e))
          h.sessions_keyed _

  same_test :
      (r : UserRow) (s : SessionRow)
      → (s.user_id == r.id && s.id == session_id && not (is_revoked c.now s))
        ≡ owns (is_valid c.now session_id) db.sessions r s
  same_test r s = ground (arith, live_iff c.now s)

  sql_row :
      first
        (λ (r : UserRow).
          active_user user_id r
          && exists
              (λ (s : SessionRow).
                s.user_id == r.id && s.id == session_id && not (is_revoked c.now s))
              db.sessions)
        db.users
      ≡ valid_owner
  sql_row =
      ap
        (λ (m : UserRow → SessionRow → Bool).
          first (λ (r : UserRow). active_user user_id r && exists (m r) db.sessions) db.users)
        (fun_ext λ r. fun_ext λ s. same_test r s)
      ∙ first-and user_id_of username_of user_id (active_user user_id) (λ x e. ground (arith, e))
          (λ r. exists (owns (is_valid c.now session_id) db.sessions r) db.sessions) db.users
          h.users_keyed
      ∙ owner_elim (is_valid c.now session_id) db.sessions (first (active_user user_id) db.users)

pub get_user_if_session_valid-agree :
    (c : Clocks) (user_id session_id : ℕ) (s : Session)
    → IsConsistent s.db
    → Django.get_user_if_session_valid c user_id session_id s
      ≡ Sql.get_user_if_session_valid (on_app_clock c) user_id session_id s
unfolding Django.get_user_if_session_valid Sql.get_user_if_session_valid
get_user_if_session_valid-agree c user_id session_id s h =
    rw (django_rows c user_id session_id s.db h, sql_row c user_id session_id s.db h)
      (only-to_list _ s)
