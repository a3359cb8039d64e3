-- ===== src/DjangoOrm/UnitOfWork.antt =====
-- app/infrastructure/db/django_orm/adapters/uow.py: `UoWDjango`, the unit of work over
-- `transaction.atomic()`.
pub mod Atomic
pub mod Preserves
use fast_api_ddd_template.Base.{
  if◌then◌else◌, Bool, true, false, Option, none, some, concat, exists, not,
}
use fast_api_ddd_template.Domain.Errors.{
  Error, Result, ok, err, key_error, integrity_error, other_error,
}
use fast_api_ddd_template.Database.{Session, SessionRow, Db, Query}
use fast_api_ddd_template.Database.Schema.{has_user}
use fast_api_ddd_template.World.{World, Action, Event, write_log}
use fast_api_ddd_template.UnitOfWork.{Interface, user_repository, user_session_repo, unregistered}
use fast_api_ddd_template.UnitOfWork.Manager
use fast_api_ddd_template.UnitOfWork.Manager.{Step, Methods, ◌>>=◌, ◌>>◌}

-- The attribute `_atomic`, with the transaction that the block holds on the connection. The mark
-- `failed` of the session is the connection's `needs_rollback`.
pub record DjangoUow : Type 0 where
  pub atomic : Option Session

-- `UoWDjango.__init__`
abbrev pub new_uow : DjangoUow
new_uow = record { atomic = none }

abbrev UowStep : Type 0 → Type 0
UowStep = Step DjangoUow

-- `_open`
unfoldable pub open_ : UowStep (Unit {0})
open_ s = (
  ok tt,
  record s { uow = record { atomic = some (record { db = s.world.db; failed = false }) } },
)

-- The foreign keys, which PostgreSQL checks at the end of the transaction.
abbrev pub is_orphan : Db → SessionRow → Bool
is_orphan db s = not (has_user s.user_id db.users)

-- `Atomic.__exit__(None, None, None)`: a marked transaction is rolled back, and nothing raised.
abbrev pub exit_block : Session → World → Result (Unit {0}) × World
exit_block s w =
    if s.failed
    then (ok tt, w)
    else if exists (is_orphan s.db) s.db.sessions
    then (err (integrity_error "user_sessions_user_id_fkey"), w)
    else (ok tt, record w { db = s.db })

abbrev forget : Result (Unit {0}) → DjangoUow → DjangoUow
forget (ok _) u = new_uow
forget (err e) u = u

-- `commit`
unfoldable pub commit : UowStep (Unit {0})
commit s = elim s.uow.atomic [
  | none ↦ (ok tt, s)
  | some session ↦
      let (r, w) = exit_block session s.world in (r, record { world = w; uow = forget r s.uow })
]

-- `rollback`: the block is marked and left.
unfoldable pub rollback : UowStep (Unit {0})
rollback s = elim s.uow.atomic [
  | none ↦ (ok tt, s)
  | some session ↦
      let (r, w) = exit_block (record session { failed = true }) s.world in
      (r, record { world = w; uow = forget r s.uow })
]

-- `_close`
unfoldable pub close : UowStep (Unit {0})
close s = (ok tt, s)

-- `get_repo`
unfoldable pub get_repo : Interface → UowStep (Unit {0})
get_repo user_repository s = (ok tt, s)
get_repo user_session_repo s = (ok tt, s)
get_repo (unregistered name) s = (err (key_error (concat "Repository not registered: " name)), s)

-- Outside a block a statement would commit by itself; no code of the program runs one there.
abbrev no_block : Error
no_block = other_error "autocommit"

-- A call of a method of a repository, in the block, on the connection of the thread.
unfoldable pub on_connection : {A : Type 0} → Query A → UowStep A
on_connection q s = elim s.uow.atomic [
  | none ↦ (err no_block, s)
  | some session ↦
      let (r, session') = q session in (r, record s { uow = record { atomic = some session' } })
]

unfoldable pub methods : Methods DjangoUow
unfolding open_ commit rollback close
methods = record { open_ = open_; commit = commit; rollback = rollback; close = close }

-- `async with UoWDjango() as uow: body`
unfoldable pub async_with : {A : Type 0} → UowStep A → Action A
unfolding methods Manager.async_with
async_with body = Manager.async_with methods new_uow body

-- The body that gets a repository and calls its methods.
unfoldable pub with_repo : {A : Type 0} → Interface → Query A → Action A
unfolding async_with get_repo on_connection
with_repo iface q = async_with (get_repo iface >> on_connection q)

abbrev pub log_some : Option Event → World → World
log_some none w = w
log_some (some e) w = (write_log e w).1

-- The same, where the body may log a record at its end.
unfoldable pub with_repo_logging :
    {A : Type 0} → Interface → Query A → (A → Option Event) → Action A
unfolding async_with get_repo on_connection
with_repo_logging iface q event = async_with (
    get_repo iface
    >> (on_connection q >>= λ a s. (ok a, record s { world = log_some (event a) s.world })))
