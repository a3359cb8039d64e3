-- ===== src/DjangoOrm/UnitOfWork/Preserves.antt =====
-- The invariant of the tables under the unit of work of the Django stack.
use fast_api_ddd_template.Base.{◌≡◌, false, Option, none, some, exists, Bool-cases, inl, inr}
use fast_api_ddd_template.Domain.Errors.{Error, Result, ok, err}
use fast_api_ddd_template.Database.{Session, Query}
use fast_api_ddd_template.Database.Invariant.{IsConsistent}
use fast_api_ddd_template.Database.Ensures.{Returns, Ensures}
use fast_api_ddd_template.World.{World, Event}
use fast_api_ddd_template.World.Preserves.{Preserves}
use fast_api_ddd_template.UnitOfWork.{Interface}
use fast_api_ddd_template.UnitOfWork.Manager.{log_unhandled, is_unhandled}
use fast_api_ddd_template.UnitOfWork.Atomic.{IsRegistered}
use fast_api_ddd_template.DjangoOrm.UnitOfWork.{is_orphan, with_repo, with_repo_logging}
use fast_api_ddd_template.DjangoOrm.UnitOfWork.Atomic.{
  settle, logged, with_repo-atomic_block, with_repo_logging-atomic_block,
}

log_unhandled-db : (e : Error) (w : World) → IsConsistent w.db → IsConsistent (log_unhandled e w).db
log_unhandled-db e w h = elim (Bool-cases (is_unhandled e)) [ inl t ↦ rw t h | inr t ↦ rw t h ]

-- The tables of a session, if they pass the check of the foreign keys at the commit.
abbrev pub IsSettled : Session → Type 0
IsSettled s = exists (is_orphan s.db) s.db.sessions ≡ false → IsConsistent s.db

module _ {A : Type 0} where
  settle-IsConsistent :
      (P : A → Type 0) (w : World) (r : Result A) (s : Session)
      → IsConsistent w.db
      → IsSettled s
      → Returns P r
      → IsConsistent (settle w (r, s)).1.db × Returns P (settle w (r, s)).0
  settle-IsConsistent P w (ok a) s h k p = elim (Bool-cases s.failed) [
    | inl t ↦ rw t (h, p)
    | inr t ↦ elim (Bool-cases (exists (is_orphan s.db) s.db.sessions)) [
      | inl o ↦ rw (t, o) (h, tt)
      | inr o ↦ rw (t, o) (k o, p)
    ]
  ]
  settle-IsConsistent P w (err e) s h k p = (log_unhandled-db e w h, tt)

  logged-IsConsistent :
      (event : A → Option Event) (r : Result A) (w : World)
      → IsConsistent w.db
      → IsConsistent (logged event r w).db
  logged-IsConsistent event (ok a) w h =
      elim (event a)
        as (λ o. IsConsistent (fast_api_ddd_template.DjangoOrm.UnitOfWork.log_some o w).db) [
          | none ↦ h
          | some e ↦ h
        ]
  logged-IsConsistent event (err e) w h = h

module _ {A : Type 0} {P : A → Type 0} where
  -- A body that leaves consistent tables unless the commit refuses them.
  pub with_repo-Settles :
      (iface : Interface) (q : Query A)
      → IsRegistered iface
      → ((s : Session) → IsConsistent s.db → IsSettled (q s).1 × Returns P (q s).0)
      → Preserves P (with_repo iface q)
  with_repo-Settles iface q i k = record {
    at = λ w h.
        let b = k (record { db = w.db; failed = false }) h in
        rw (with_repo-atomic_block iface q w i) (settle-IsConsistent P w _ _ h b.0 b.1);
  }

  pub with_repo-Preserves :
      (iface : Interface) (q : Query A)
      → IsRegistered iface
      → Ensures P q
      → Preserves P (with_repo iface q)
  with_repo-Preserves iface q i k =
      with_repo-Settles iface q i (λ s h. (λ _. (k.at s h).0, (k.at s h).1))

  pub with_repo_logging-Preserves :
      (iface : Interface) (q : Query A) (event : A → Option Event)
      → IsRegistered iface
      → Ensures P q
      → Preserves P (with_repo_logging iface q event)
  with_repo_logging-Preserves iface q event i k = record {
    at = λ w h.
        let b = k.at (record { db = w.db; failed = false }) h in
        rw (with_repo_logging-atomic_block iface q event w i)
          (settle-IsConsistent P _ _ _ (logged-IsConsistent event _ w h) (λ _. b.0) b.1);
  }
