-- ===== src/UnitOfWork/Preserves.antt =====
-- The invariant of the tables under a unit of work.
use fast_api_ddd_template.Base.{false, Bool-cases, inl, inr}
use fast_api_ddd_template.Domain.Errors.{Error, Result, ok, err}
use fast_api_ddd_template.Database.{Session, Query}
use fast_api_ddd_template.Database.Invariant.{IsConsistent}
use fast_api_ddd_template.Database.Ensures.{Returns, Ensures}
use fast_api_ddd_template.World.{World, Event}
use fast_api_ddd_template.World.Preserves.{Preserves}
use fast_api_ddd_template.UnitOfWork.Manager.{log_unhandled, is_unhandled}
use fast_api_ddd_template.UnitOfWork.{Interface, with_repo, with_repo_logging}
use fast_api_ddd_template.UnitOfWork.Atomic.{
  settle, IsRegistered, with_repo-atomic, logged, with_repo_logging-atomic,
}

log_unhandled-db : (e : Error) (w : World) → IsConsistent w.db → IsConsistent (log_unhandled e w).db
log_unhandled-db e w h = elim (Bool-cases (is_unhandled e)) [ inl t ↦ rw t h | inr t ↦ rw t h ]

module _ {A : Type 0} where
  settle-IsConsistent :
      (P : A → Type 0) (w : World) (r : Result A) (s : Session)
      → IsConsistent w.db
      → IsConsistent s.db × Returns P r
      → IsConsistent (settle w (r, s)).1.db × Returns P (settle w (r, s)).0
  settle-IsConsistent P w (ok a) s h (k, p) = elim (Bool-cases s.failed) [
    | inl t ↦ rw t (h, tt)
    | inr t ↦ rw t (k, p)
  ]
  settle-IsConsistent P w (err e) s h (k, p) = (log_unhandled-db e w h, tt)

  logged-IsConsistent :
      (event : A → Event) (r : Result A) (w : World)
      → IsConsistent w.db
      → IsConsistent (logged event r w).db
  logged-IsConsistent event (ok a) w h = h
  logged-IsConsistent event (err e) w h = h

module _ {A : Type 0} {P : A → Type 0} where
  pub with_repo-Preserves :
      (iface : Interface) (q : Query A)
      → IsRegistered iface
      → Ensures P q
      → Preserves P (with_repo iface q)
  with_repo-Preserves iface q i k = record {
    at = λ w h.
        rw (with_repo-atomic iface q w i)
          (settle-IsConsistent P w _ _ h (k.at (record { db = w.db; failed = false }) h));
  }

  pub with_repo_logging-Preserves :
      (iface : Interface) (q : Query A) (event : A → Event)
      → IsRegistered iface
      → Ensures P q
      → Preserves P (with_repo_logging iface q event)
  with_repo_logging-Preserves iface q event i k = record {
    at = λ w h. rw (with_repo_logging-atomic iface q event w i) (
        settle-IsConsistent P _ _ _ (logged-IsConsistent event _ w h)
          (k.at (record { db = w.db; failed = false }) h));
  }
