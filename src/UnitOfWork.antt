-- ===== src/UnitOfWork.antt =====
-- app/infrastructure/db/sqlalchemy/adapters/uow.py: `UoWSQL`, the unit of work over a database
-- transaction of SQLAlchemy.
pub mod Manager
pub mod Atomic
pub mod Preserves
use fast_api_ddd_template.Base.{
  if◌then◌else◌, Bool, true, false, Option, none, some, String, concat,
}
use fast_api_ddd_template.Domain.Errors.{
  Error, Result, ok, err, key_error, assertion_error, other_error,
}
use fast_api_ddd_template.Database.{Session, Query}
use fast_api_ddd_template.World.{World, Action, Event, write_log}
use Manager
use Manager.{Step, Methods, ◌>>=◌, ◌>>◌}

-- The attributes `_session` and `_txn` of `UoWSQL`; a transaction is begun or not.
pub record UoW : Type 0 where
  pub session : Option Session
  pub txn : Bool

-- `UoWSQL.__init__`
abbrev pub new_uow : UoW
new_uow = record { session = none; txn = false }

abbrev UowStep : Type 0 → Type 0
UowStep = Step UoW

-- `_open`: a new session on the committed tables, and its transaction.
unfoldable pub open_ : UowStep (Unit {0})
open_ s = (
  ok tt,
  record s {
    uow = record { session = some (record { db = s.world.db; failed = false }); txn = true };
  },
)

-- The error of SQLAlchemy on a commit after a flush that failed.
abbrev pub pending_rollback : Error
pending_rollback = other_error "PendingRollbackError"

-- `AsyncSessionTransaction.commit`
abbrev pub commit_session : Session → World → Result (Unit {0}) × World
commit_session s w = if s.failed then (err pending_rollback, w) else (ok tt, record w { db = s.db })

abbrev asserted : UoW → Option Session
asserted u = if u.txn then u.session else none

-- `commit`
unfoldable pub commit : UowStep (Unit {0})
commit s = elim (asserted s.uow) [
  | none ↦ (err (assertion_error "No transaction started"), s)
  | some session ↦ let (r, w) = commit_session session s.world in (r, record s { world = w })
]

-- `rollback`: the session is back at the committed tables.
unfoldable pub rollback : UowStep (Unit {0})
rollback s = elim (asserted s.uow) [
  | none ↦ (err (assertion_error "No transaction started"), s)
  | some session ↦ (
    ok tt,
    record s {
      uow = record { session = some (record { db = s.world.db; failed = false }); txn = true };
    },
  )
]

-- `_close`: closing a session changes no table.
unfoldable pub close : UowStep (Unit {0})
close s = (ok tt, s)

-- A key of `_REGISTRY`, or an interface that is not one.
pub data Interface : Type 0 where
  user_repository user_session_repo : Interface
  unregistered : String → Interface

abbrev registered : Interface → Result (Unit {0})
registered user_repository = ok tt
registered user_session_repo = ok tt
registered (unregistered name) = err (key_error (concat "Repository not registered: " name))

-- `get_repo`: the repository is bound to the session of the unit of work.
unfoldable pub get_repo : Interface → UowStep (Unit {0})
get_repo iface s = elim s.uow.session [
  | none ↦ (err (assertion_error "No session opened"), s)
  | some session ↦ (registered iface, s)
]

-- A call of a method of a repository, on the session that it is bound to.
unfoldable pub on_session : {A : Type 0} → Query A → UowStep A
on_session q s = elim s.uow.session [
  | none ↦ (err (assertion_error "No session opened"), s)
  | some session ↦
      let (r, session') = q session in
      (r, record s { uow = record { session = some session'; txn = s.uow.txn } })
]

unfoldable pub methods : Methods UoW
unfolding open_ commit rollback close
methods = record { open_ = open_; commit = commit; rollback = rollback; close = close }

-- `async with UoWSQL(session_factory) as uow: body`
unfoldable pub async_with : {A : Type 0} → UowStep A → Action A
unfolding methods Manager.async_with
async_with body = Manager.async_with methods new_uow body

-- The body that gets a repository and calls its methods.
unfoldable pub with_repo : {A : Type 0} → Interface → Query A → Action A
unfolding async_with get_repo on_session
with_repo iface q = async_with (get_repo iface >> on_session q)

-- The same, with a record logged at the end of the body.
unfoldable pub with_repo_logging : {A : Type 0} → Interface → Query A → (A → Event) → Action A
unfolding async_with get_repo on_session
with_repo_logging iface q event = async_with (
    get_repo iface
    >> (on_session q >>= λ a s. (ok a, record s { world = (write_log (event a) s.world).1 })))
