-- ===== src/Auth/Opened.antt =====
-- The session that a login opens, in the tables.
use fast_api_ddd_template.Base.{
  exists-append, ℕ, zero, suc, ◌+◌, ◌<◌, ◌≡◌, refl, arith, Bool, true, some, List, [], ◌∷◌, String,
  ◌==◌, first, exists, Bool-cases, inl, inr,
}
use fast_api_ddd_template.Base.Keyed.{IsKeyed, has_id}
use fast_api_ddd_template.Domain.Errors.{ok}
use fast_api_ddd_template.Database.{UserRow, SessionRow, Session, Time}
use fast_api_ddd_template.Database.Invariant.{user_id_of, username_of}
use fast_api_ddd_template.Database.Invariant.SessionWrites.{insert_session-ok}
use fast_api_ddd_template.Database.SessionRepo.{
  Clocks, minutes, is_revoked, new_session, create, create_write, excess, revoke_all,
}
use fast_api_ddd_template.Database.SessionRepo.Limit.{create-ok}
use fast_api_ddd_template.Auth.Sound.{is_live_session}

-- Where ids are unique, a row that is found by any test is found by its id.
pub by_id-first :
    (p : UserRow → Bool) (users : List UserRow) (r : UserRow)
    → IsKeyed user_id_of username_of users
    → first p users ≡ some r
    → (first (λ (x : UserRow). x.id == r.id) users ≡ some r)
      × (has_id user_id_of username_of r.id users ≡ true)
by_id-first p [] r k h = cc
by_id-first p (x ∷ xs) r k h = elim (Bool-cases (p x)) [
  | inl t ↦ let q : x ≡ r = ground (arith, h, t) in (ground (arith, q), ground (arith, q))
  | inr t ↦
      let f = by_id-first p xs r k.2 (ground (arith, h, t)) in
      (ground (arith, f.0, f.1, k.0), ground (arith, f.1))
]

new_session-live :
    (t : Time) (c : Clocks) (new_id user_id expiry_time : ℕ) (hash : String)
    → t < minutes expiry_time + c.now
    → is_live_session t user_id new_id (new_session c new_id user_id expiry_time hash) ≡ true
unfolding is_revoked
new_session-live t c new_id user_id expiry_time hash l = ground (arith, l)

-- Where `create` returns, the session is there, it is live until its time, and the users stay.
pub create-live :
    (t : Time) (c : Clocks) (new_id user_id expiry_time max_sessions : ℕ) (hash : String)
    (s s' : Session) (r : SessionRow)
    → t < minutes expiry_time + c.now
    → create c new_id user_id expiry_time max_sessions hash s ≡ (ok r, s')
    → (exists (is_live_session t user_id new_id) s'.db.sessions ≡ true)
      × (s'.db.users ≡ s.db.users)
      × (r ≡ new_session c new_id user_id expiry_time hash)
unfolding create create_write
create-live t c new_id user_id expiry_time zero hash s s' r l h = absurd (ground (arith, h))
create-live t c new_id user_id expiry_time (suc keep) hash s s' r l h =
    let row = new_session c new_id user_id expiry_time hash in
    let rows = revoke_all c.now (excess c.db_now user_id keep s.db.sessions) s.db.sessions in
    let (w, q) = create-ok c new_id user_id expiry_time keep hash s s' r h in
    let f = insert_session-ok row (record s.db { sessions = rows }) w in
    let live =
      exists-append (is_live_session t user_id new_id) rows row
        (new_session-live t c new_id user_id expiry_time hash l) in
    (rw f.3 live, rw f.3 refl, q)
