-- ===== src/UnitOfWork/Atomic.antt =====
-- The unit of work, against the specification of a transaction.
use fast_api_ddd_template.Base.{◌≡◌, false, [], ◌∷◌, ◌++◌, if◌then◌else◌, arith}
use fast_api_ddd_template.Domain.Errors.{Result, ok, err}
use fast_api_ddd_template.Database.{Session, Query}
use fast_api_ddd_template.World.{World, Action, Event}
use fast_api_ddd_template.UnitOfWork.Manager.{log_unhandled}
use fast_api_ddd_template.UnitOfWork.{
  Interface, user_repository, user_session_repo, with_repo, with_repo_logging, pending_rollback,
}

-- What the end of a transaction makes of what its body returned and left in the session.
abbrev pub settle : {A : Type 0} → World → Result A × Session → Result A × World
settle w (ok a, s) = if s.failed then (err pending_rollback, w) else (ok a, record w { db = s.db })
settle w (err e, s) = (err e, log_unhandled e w)

-- The specification: the body runs on the committed tables; they become what it left if it
-- returns after no failed flush, and stay as they were otherwise.
abbrev pub atomic : {A : Type 0} → Query A → Action A
atomic q w = settle w (q (record { db = w.db; failed = false }))

-- The repositories that the registry knows.
abbrev pub IsRegistered : Interface → Type 0
IsRegistered user_repository = Unit
IsRegistered user_session_repo = Unit
IsRegistered _ = ⊥

-- A unit of work over a repository of the registry is a transaction: the tables become what its
-- body left, if the body returns and no flush has failed; they stay as they were, if the body
-- raises, or if it returns after a failed flush, where the commit raises.
pub with_repo-atomic :
    {A : Type 0} (iface : Interface) (q : Query A) (w : World)
    → IsRegistered iface
    → with_repo iface q w ≡ atomic q w
unfolding with_repo
with_repo-atomic iface q w h = ground arith

-- With a record logged at the end of the body, the log grows by it where the body returns.
abbrev pub logged : {A : Type 0} → (A → Event) → Result A → World → World
logged event (ok a) w = record w { log = w.log ++ event a ∷ [] }
logged event (err e) w = w

pub with_repo_logging-atomic :
    {A : Type 0} (iface : Interface) (q : Query A) (event : A → Event) (w : World)
    → IsRegistered iface
    → with_repo_logging iface q event w
      ≡ (let (r, s) = q (record { db = w.db; failed = false }) in settle (logged event r w) (r, s))
unfolding with_repo_logging
with_repo_logging-atomic iface q event w h = ground arith
