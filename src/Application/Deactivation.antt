-- ===== src/Application/Deactivation.antt =====
-- The deletion of an account, which deactivates it.
use fast_api_ddd_template.Ports.Sql.{sql_ports}
use fast_api_ddd_template.Base.{
  ◌≡◌, ◌≢◌, refl, sym, arith, true, false, Option, none, some, ◌∙◌, subst, Bool-cases, inl, inr,
}
use fast_api_ddd_template.Domain.Errors.{Result, ok, err, not_authenticated_error}
use fast_api_ddd_template.Domain.Values.{UserId, user_id_from_str}
use fast_api_ddd_template.Domain.User.{User, deactivate}
use fast_api_ddd_template.Database.{Session}
use fast_api_ddd_template.Database.Mapping.{to_row}
use fast_api_ddd_template.Database.Ensures.{Anything}
use fast_api_ddd_template.Database.Invariant.{IsConsistent}
use fast_api_ddd_template.Database.Invariant.UserWrites.{update_user-ok}
use fast_api_ddd_template.Database.UserRepo.{update}
use fast_api_ddd_template.Database.UserRepo.Contract.{
  stored, get_by_id-stored, stored-id, update-ok,
}
use fast_api_ddd_template.Database.SessionRepo.{Clocks}
use fast_api_ddd_template.World.{World, Action}
use fast_api_ddd_template.World.Preserves.{Preserves}
use fast_api_ddd_template.UnitOfWork.{user_repository}
use fast_api_ddd_template.UnitOfWork.Atomic.{with_repo-atomic}
use fast_api_ddd_template.Auth.{AuthPayload, current_user}
use fast_api_ddd_template.Auth.Lockout.{IsInactive, IsInactive-update, current_user-IsInactive}
use fast_api_ddd_template.Application.Dto.{DeleteUserInputDto, DeleteUserOutputDto}
use fast_api_ddd_template.Application.State.{State}
use fast_api_ddd_template.Application.Presenter.{Presenter}
use fast_api_ddd_template.Application.Exit.{Exit, returned, continued}
use fast_api_ddd_template.Application.DeleteUser.{retire, delete_body, run_delete_user}

-- How `retire` returns.
retire-ok :
    (u u' : User) (s s' : Session)
    → retire u s ≡ (ok u', s')
    → (u'.id ≡ u.id) × (u'.is_active ≡ false) × (update u' s ≡ (ok tt, s'))
unfolding retire deactivate
retire-ok u u' s s' h = elim (Bool-cases u.is_active) [
  | inl t ↦ updated t (update (record u { is_active = false }) s) refl
  | inr t ↦ absurd (ground (arith, h, t))
]
  where
    updated :
        u.is_active ≡ true
        → (x : Result (Unit {0}) × Session) → update (record u { is_active = false }) s ≡ x
        → (u'.id ≡ u.id) × (u'.is_active ≡ false) × (update u' s ≡ (ok tt, s'))
    updated t (ok a, v) e = ground (arith, h, t, e)
    updated t (err x, v) e = absurd (ground (arith, h, t, e))

-- How the body of the unit of work falls through.
delete_body-ok :
    (p : Presenter DeleteUserOutputDto) (i : UserId) (u' : User) (s s' : Session)
    → IsConsistent s.db
    → delete_body p i s ≡ (ok (continued u'), s')
    → (u : User) × (stored i s.db ≡ some u) × (retire u s ≡ (ok u', s'))
unfolding delete_body
delete_body-ok p i u' s s' k h = looked (stored i s.db) refl
  where
    looked :
        (o : Option User)
        → stored i s.db ≡ o
        → (u : User) × (stored i s.db ≡ some u) × (retire u s ≡ (ok u', s'))
    looked none e = absurd (ground (arith, h, e, get_by_id-stored i s k))
    looked (some u) e = retired (retire u s) refl
      where
        retired :
            (x : Result User × Session)
            → retire u s ≡ x
            → (u : User) × (stored i s.db ≡ some u) × (retire u s ≡ (ok u', s'))
        retired (ok v, s'') f = (u, e, ground (arith, h, e, f, get_by_id-stored i s k))
        retired (err x, s'') f = absurd (ground (arith, h, e, f, get_by_id-stored i s k))

-- A body that returns early does not report success.
delete_body-returned :
    (p r : Presenter DeleteUserOutputDto) (i : UserId) (s s' : Session)
    → IsConsistent s.db
    → delete_body p i s ≡ (ok (returned r), s')
    → r.state ≢ some State.ok
unfolding delete_body
delete_body-returned p r i s s' k h st = looked (stored i s.db) refl
  where
    looked : (o : Option User) → stored i s.db ≡ o → ⊥
    looked none e = ground (arith, h, e, st, get_by_id-stored i s k)
    looked (some u) e = retired (retire u s) refl
      where
        retired : (x : Result User × Session) → retire u s ≡ x → ⊥
        retired (ok v, s'') f = ground (arith, h, e, f, st, get_by_id-stored i s k)
        retired (err x, s'') f = ground (arith, h, e, f, st, get_by_id-stored i s k)

-- The tables that the body leaves have no active user of the id.
delete_body-IsInactive :
    (p : Presenter DeleteUserOutputDto) (i : UserId) (u' : User) (s s' : Session)
    → IsConsistent s.db
    → delete_body p i s ≡ (ok (continued u'), s')
    → IsInactive i.value s'.db.users
delete_body-IsInactive p i u' s s' k h =
    let (u, e, r) = delete_body-ok p i u' s s' k h in
    let (same, inactive, written) = retire-ok u u' s s' r in
    let (row, e', w, q) = update-ok u' s s' written in
    let f = update_user-ok (to_row u') s.db w in
    let id : u'.id ≡ i = same ∙ stored-id i s.db u e in
    rw f.1 (rw (sym id) (IsInactive-update (to_row u') s.db.users inactive))

-- A deletion that reports success, on consistent tables and under an authentication service that
-- keeps them so, locks the account out: the service refuses every token of the deleted user,
-- whatever its session, its role and the time.
pub run_delete_user-current_user :
    (current : Action User) (dto : DeleteUserInputDto) (p p' : Presenter DeleteUserOutputDto)
    (i : UserId) (w w' : World) (later : Clocks) (payload : AuthPayload)
    → Preserves Anything current
    → IsConsistent w.db
    → user_id_from_str dto.user_id ≡ ok i
    → run_delete_user current dto p w ≡ (ok p', w')
    → p'.state ≡ some State.ok
    → payload.user_id ≡ i.value
    → (current_user later payload w').0 ≡ err (not_authenticated_error "Not authorized.")
unfolding run_delete_user
run_delete_user-current_user current dto p p' i w w' later payload kc k e h st id =
    current_user-IsInactive later payload w' (rw id (asked (current w) refl))
  where
    asked : (x : Result User × World) → current w ≡ x → IsInactive i.value w'.db.users
    asked (err x, v) a = absurd (ground (arith, h, e, a, st))
    asked (ok c, v) a = deleted (delete_body p i start) refl
      where
        start : Session
        start = record { db = v.db; failed = false }

        consistent : IsConsistent v.db
        consistent = subst (λ (x : Result User × World). IsConsistent x.1.db) a ((kc.at w k).0)

        deleted :
            (x : Result (Exit (Presenter DeleteUserOutputDto)) × Session)
            → delete_body p i start ≡ x
            → IsInactive i.value w'.db.users
        deleted (ok (continued u'), s') f =
            let q = with_repo-atomic user_repository (delete_body p i) v tt in
            let d : w'.db ≡ s'.db = ground (arith, h, st, e, a, f, q) in
            rw d (delete_body-IsInactive p i u' start s' consistent f)
        deleted (ok (returned r), s') f =
            let q = with_repo-atomic user_repository (delete_body p i) v tt in
            let d : p' ≡ r = ground (arith, h, st, e, a, f, q) in
            absurd (
              delete_body-returned p r i start s' consistent f
                (subst (λ (x : Presenter DeleteUserOutputDto). x.state ≡ some State.ok) d st))
        deleted (err x, s') f = absurd (
            ground (arith, h, st, e, a, f, with_repo-atomic user_repository (delete_body p i) v tt))
