-- ===== src/Auth/Accepts.antt =====
-- `TokenSessionAuthService` accepts the tokens of live sessions.
use fast_api_ddd_template.Base.{
  ℕ, ◌≡◌, arith, Bool, true, ◌&&◌, some, List, [], ◌∷◌, eq_refl, ◌==◌, first, exists,
}
use fast_api_ddd_template.Domain.Errors.{ok}
use fast_api_ddd_template.Domain.Values.{role_text}
use fast_api_ddd_template.Database.{UserRow}
use fast_api_ddd_template.Database.Invariant.{IsReadable}
use fast_api_ddd_template.Database.UserRepo.{by_id}
use fast_api_ddd_template.Database.UserRepo.Keeps.{read, to_domain-readable}
use fast_api_ddd_template.Database.SessionRepo.{Clocks, active_user, get_user_if_session_valid}
use fast_api_ddd_template.World.{World}
use fast_api_ddd_template.UnitOfWork.{user_session_repo}
use fast_api_ddd_template.UnitOfWork.Atomic.{with_repo-atomic}
use fast_api_ddd_template.Auth.{AuthPayload, current_user}
use fast_api_ddd_template.Auth.Sound.{is_live_session}

-- A row that is found by its id is found by a test that it passes, if only rows of that id do.
first-by_id :
    (i : ℕ) (q : UserRow → Bool) (users : List UserRow) (r : UserRow)
    → first (λ (x : UserRow). x.id == i) users ≡ some r
    → r.is_active ≡ true
    → q r ≡ true
    → first (λ (x : UserRow). active_user i x && q x) users ≡ some r
first-by_id i q [] r h a t = cc
first-by_id i q (x ∷ xs) r h a t = ground (arith, h, a, t, first-by_id i q xs r)

-- The token of a live session, with the id and the role of an active user of the tables.
abbrev pub payload_for : UserRow → ℕ → AuthPayload
payload_for r sid = record { user_id = r.id; session_id = sid; role = role_text r.role }

-- Where a user of the tables is active and has a live session, the token of that session is
-- accepted, and no table changes.
pub current_user-accepts :
    (c : Clocks) (r : UserRow) (sid : ℕ) (w : World)
    → IsReadable r
    → by_id r.id w.db ≡ some r
    → r.is_active ≡ true
    → exists (is_live_session c.db_now r.id sid) w.db.sessions ≡ true
    → current_user c (payload_for r sid) w ≡ (ok (read r), w)
unfolding current_user get_user_if_session_valid
current_user-accepts c r sid w k h a l = ground (
  arith,
  first-by_id r.id (λ (x : UserRow). exists (is_live_session c.db_now x.id sid) w.db.sessions)
      w.db.users r h a l,
  with_repo-atomic user_session_repo (get_user_if_session_valid c r.id sid) w tt,
  to_domain-readable r k,
  eq_refl (role_text r.role),
)
