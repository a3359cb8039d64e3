-- ===== src/Auth/Lockout.antt =====
-- `TokenSessionAuthService` where its query finds nobody.
use fast_api_ddd_template.Base.{
  ℕ, ◌≡◌, refl, arith, Bool, false, ◌&&◌, Option, none, List, [], ◌∷◌, ◌==◌, first, exists,
  update_where, ap,
}
use fast_api_ddd_template.Domain.Errors.{Error, ok, err, not_authenticated_error}
use fast_api_ddd_template.Database.{UserRow}
use fast_api_ddd_template.Database.SessionRepo.{Clocks, active_user, get_user_if_session_valid}
use fast_api_ddd_template.Database.SessionRepo.Lookup.{
  IsRevoked, get_user_if_session_valid-IsRevoked,
}
use fast_api_ddd_template.World.{World}
use fast_api_ddd_template.UnitOfWork.{user_session_repo}
use fast_api_ddd_template.UnitOfWork.Atomic.{with_repo-atomic}
use fast_api_ddd_template.Auth.{AuthPayload, current_user}

abbrev pub refused : Error
refused = not_authenticated_error "Not authorized."

-- The service refuses where its query finds no user.
current_user-none :
    (c : Clocks) (payload : AuthPayload) (w : World)
    → get_user_if_session_valid c payload.user_id payload.session_id
        (record { db = w.db; failed = false })
      ≡ (ok none, record { db = w.db; failed = false })
    → (current_user c payload w).0 ≡ err refused
unfolding current_user
current_user-none c payload w h = ground (
  arith,
  h,
  with_repo-atomic user_session_repo
      (get_user_if_session_valid c payload.user_id payload.session_id) w tt,
)

pub current_user-IsRevoked :
    (c : Clocks) (payload : AuthPayload) (w : World)
    → IsRevoked payload.session_id w.db.sessions
    → (current_user c payload w).0 ≡ err refused
current_user-IsRevoked c payload w h =
    current_user-none c payload w
      (get_user_if_session_valid-IsRevoked c payload.user_id payload.session_id _ h)

-- No active user has the id.
abbrev pub IsInactive : ℕ → List UserRow → Type 0
IsInactive i users = exists (active_user i) users ≡ false

first-IsInactive :
    (i : ℕ) (q : UserRow → Bool) (users : List UserRow)
    → IsInactive i users
    → first (λ (r : UserRow). active_user i r && q r) users ≡ none
first-IsInactive i q [] h = refl
first-IsInactive i q (x ∷ xs) h = ground (arith, first-IsInactive i q xs)

pub current_user-IsInactive :
    (c : Clocks) (payload : AuthPayload) (w : World)
    → IsInactive payload.user_id w.db.users
    → (current_user c payload w).0 ≡ err refused
unfolding get_user_if_session_valid
current_user-IsInactive c payload w h = current_user-none c payload w (
    ap (λ (o : Option UserRow). (ok o, record { db = w.db; failed = false }))
      (first-IsInactive payload.user_id _ w.db.users h))

-- Writing an inactive user over its id leaves no active one.
pub IsInactive-update :
    (r : UserRow) (users : List UserRow)
    → r.is_active ≡ false
    → IsInactive r.id (update_where (λ (o : UserRow). o.id == r.id) (λ _. r) users)
IsInactive-update r [] h = refl
IsInactive-update r (x ∷ xs) h = ground (arith, h, IsInactive-update r xs h)
