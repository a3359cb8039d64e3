-- ===== src/DjangoOrm/UnitOfWork/Atomic.antt =====
-- The unit of work of the Django stack, against the specification of a transaction.
use fast_api_ddd_template.Base.{
  refl, All, List, [], ◌∷◌, ◌≡◌, false, Option, exists, if◌then◌else◌, arith,
}
use fast_api_ddd_template.Domain.Errors.{Result, ok, err, integrity_error}
use fast_api_ddd_template.Database.{SessionRow, Db, Session, Query}
use fast_api_ddd_template.Database.Invariant.{IsOwned}
use fast_api_ddd_template.World.{World, Action, Event}
use fast_api_ddd_template.UnitOfWork.{Interface}
use fast_api_ddd_template.UnitOfWork.Manager.{log_unhandled}
use fast_api_ddd_template.UnitOfWork.Atomic.{IsRegistered}
use fast_api_ddd_template.DjangoOrm.UnitOfWork.{is_orphan, with_repo, with_repo_logging, log_some}

-- What the end of a transaction makes of what its body returned and left on the connection.
abbrev pub settle : {A : Type 0} → World → Result A × Session → Result A × World
settle w (ok a, s) =
    if s.failed
    then (ok a, w)
    else if exists (is_orphan s.db) s.db.sessions
    then (err (integrity_error "user_sessions_user_id_fkey"), w)
    else (ok a, record w { db = s.db })
settle w (err e, s) = (err e, log_unhandled e w)

-- No session of consistent tables is without its user.
pub no_orphan :
    (db : Db) (sessions : List SessionRow)
    → All (IsOwned db.users) sessions
    → exists (is_orphan db) sessions ≡ false
no_orphan db [] h = refl
no_orphan db (x ∷ xs) h = ground (arith, h.0, no_orphan db xs h.1)

-- The specification: the body runs on the committed tables.
abbrev pub atomic : {A : Type 0} → Query A → Action A
atomic q w = settle w (q (record { db = w.db; failed = false }))

-- A unit of work of Django over a repository of the registry is a transaction. If the body raises,
-- the tables stay as they were. If it returns after no failed statement, they become what it left,
-- unless a session then has no user: the commit raises, and they stay. If it returns after a
-- failed statement, they stay as they were, and the unit of work returns all the same.
pub with_repo-atomic_block :
    {A : Type 0} (iface : Interface) (q : Query A) (w : World)
    → IsRegistered iface
    → with_repo iface q w ≡ atomic q w
unfolding with_repo
with_repo-atomic_block iface q w h = ground arith

-- With a record that the body may log at its end, the log grows by it where the body returns.
abbrev pub logged : {A : Type 0} → (A → Option Event) → Result A → World → World
logged event (ok a) w = log_some (event a) w
logged event (err e) w = w

pub with_repo_logging-atomic_block :
    {A : Type 0} (iface : Interface) (q : Query A) (event : A → Option Event) (w : World)
    → IsRegistered iface
    → with_repo_logging iface q event w
      ≡ (let (r, s) = q (record { db = w.db; failed = false }) in settle (logged event r w) (r, s))
unfolding with_repo_logging
with_repo_logging-atomic_block iface q event w h = ground arith
