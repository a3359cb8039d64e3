-- ===== src/Auth/Sound.antt =====
-- `TokenSessionAuthService` where it returns a user.
use fast_api_ddd_template.Base.{
  ℕ, ◌≡◌, refl, arith, eq_iff, Bool, true, false, not, ◌&&◌, Option, none, some, List, [], ◌∷◌,
  str_eq, ◌==◌, first, exists, ap, ◌∙◌, subst, Bool-cases, inl, inr,
}
use fast_api_ddd_template.Domain.Errors.{ok}
use fast_api_ddd_template.Domain.Values.{role_text}
use fast_api_ddd_template.Domain.User.{User}
use fast_api_ddd_template.Database.{UserRow, SessionRow, Db, Session, Time}
use fast_api_ddd_template.Database.Invariant.{IsConsistent}
use fast_api_ddd_template.Database.UserRepo.Keeps.{read, to_domain-readable, first-IsReadable}
use fast_api_ddd_template.Database.SessionRepo.{
  Clocks, is_revoked, active_user, get_user_if_session_valid,
}
use fast_api_ddd_template.World.{World}
use fast_api_ddd_template.UnitOfWork.{with_repo, user_session_repo}
use fast_api_ddd_template.UnitOfWork.Atomic.{with_repo-atomic}
use fast_api_ddd_template.Auth.{AuthPayload, current_user}

-- A session of the user and of the id, neither revoked nor expired.
abbrev pub is_live_session : Time → ℕ → ℕ → SessionRow → Bool
is_live_session t user_id i s = s.user_id == user_id && s.id == i && not (is_revoked t s)

-- The user that the query looks for.
abbrev valid : Clocks → AuthPayload → Db → Option UserRow
valid c payload db =
    first
      (λ (r : UserRow).
        active_user payload.user_id r
        && exists (is_live_session c.db_now r.id payload.session_id) db.sessions)
      db.users

-- What a row that is found passes.
first-passes :
    (p : UserRow → Bool) (users : List UserRow) (r : UserRow) → first p users ≡ some r → p r ≡ true
first-passes p [] r h = cc
first-passes p (x ∷ xs) r h = elim (Bool-cases (p x)) [
  | inl t ↦ let q : x ≡ r = ground (arith, h, t) in subst (λ (y : UserRow). p y ≡ true) q t
  | inr t ↦ first-passes p xs r (ground (arith, h, t))
]

module _ (c : Clocks) (payload : AuthPayload) (w : World) (u : User) (v : World) where
  -- On consistent tables, a token that the authentication service accepts is for an active user
  -- of its user id whose present role is the token's, and who has a session of the token's session
  -- id that is neither revoked nor expired by the clock of the database; no table changes.
  pub current_user_sound :
      IsConsistent w.db
      → current_user c payload w ≡ (ok u, v)
      → (u.id.value ≡ payload.user_id)
        × (u.is_active ≡ true)
        × (role_text u.role ≡ payload.role)
        × (exists (is_live_session c.db_now payload.user_id payload.session_id) w.db.sessions
            ≡ true)
        × (v.db ≡ w.db)
  unfolding current_user get_user_if_session_valid
  current_user_sound k h = looked (valid c payload w.db) refl
    where
      start : Session
      start = record { db = w.db; failed = false }

      atomic :
          with_repo user_session_repo
            (get_user_if_session_valid c payload.user_id payload.session_id)
            w
          ≡ (ok (valid c payload w.db), w)
      atomic =
          with_repo-atomic user_session_repo
            (get_user_if_session_valid c payload.user_id payload.session_id) w tt

      looked :
          (o : Option UserRow)
          → valid c payload w.db ≡ o
          → (u.id.value ≡ payload.user_id)
            × (u.is_active ≡ true)
            × (role_text u.role ≡ payload.role)
            × (exists (is_live_session c.db_now payload.user_id payload.session_id) w.db.sessions
                ≡ true)
            × (v.db ≡ w.db)
      looked none e = absurd (ground (arith, h, e, atomic))
      looked (some r) e =
          let p = first-passes _ w.db.users r e in
          let i : r.id ≡ payload.user_id = ground (arith, p) in
          let d = to_domain-readable r (first-IsReadable _ w.db (some r) k e) in
          let q = eq_iff (role_text r.role) payload.role in
          let l : exists (is_live_session c.db_now r.id payload.session_id) w.db.sessions ≡ true =
            ground (arith, p) in
          let f : (u ≡ read r) × (str_eq (role_text r.role) payload.role ≡ true) × (v ≡ w) = (
            ground (arith, h, e, atomic, d),
            ground (arith, h, e, atomic),
            ground (arith, h, e, atomic, d),
          ) in
          (
            ground (arith, f.0, i),
            ground (arith, f.0, p),
            ap (λ (x : User). role_text x.role) f.0 ∙ q.0 f.1,
            subst
                (λ (n : ℕ).
                  exists (is_live_session c.db_now n payload.session_id) w.db.sessions ≡ true)
                i l,
            ap (λ (x : World). x.db) f.2,
          )
