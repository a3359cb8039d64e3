-- ===== src/Database.antt =====
-- app/infrastructure/db/sqlalchemy: the tables of models/, the session that the repositories
-- work in, and its flush, which enforces the constraints that the models declare.
pub mod Schema
pub mod Mapping
pub mod Invariant
pub mod Ensures
pub mod UserRepo
pub mod SessionRepo
use fast_api_ddd_template.Base.{ℕ, Bool, true, Option, List, String, if◌then◌else◌}
use fast_api_ddd_template.Domain.Errors.{Error, Result, ok, err}
use fast_api_ddd_template.Domain.Values.{UserRole}

-- Microseconds since the epoch, in UTC.
abbrev pub Time : Type 0
Time = ℕ

-- `UserORM`. The columns created_at and updated_at are written by the database and never read.
pub record UserRow : Type 0 where
  pub id : ℕ
  pub username : String
  pub password_hash : List ℕ
  pub role : UserRole
  pub is_active : Bool

-- `UserSessionORM`, less created_at, which is never read.
pub record SessionRow : Type 0 where
  pub id : ℕ
  pub user_id : ℕ
  pub expires_at : Time
  pub revoked_at : Option Time
  pub refresh_token_hash : String

pub record Db : Type 0 where
  pub users : List UserRow
  pub sessions : List SessionRow

-- `AsyncSession` in a transaction: the tables as the transaction sees them, and whether a flush
-- has failed. SQLAlchemy rolls such a transaction back, and refuses to commit it.
pub record Session : Type 0 where
  pub db : Db
  pub failed : Bool

-- What a repository method does to its session.
abbrev pub Query : Type 0 → Type 0
Query A = Session → Result A × Session

infixl 5 ◌>>=◌ ◌>>◌
abbrev pub ◌>>=◌ : {A B : Type 0} → Query A → (A → Query B) → Query B
◌>>=◌ m f s = let (r, s') = m s in elim r [ ok a ↦ f a s' | err e ↦ (err e, s') ]

abbrev pub ◌>>◌ : {A B : Type 0} → Query A → Query B → Query B
m >> k = m >>= λ _. k

abbrev pub pure : {A : Type 0} → A → Query A
pure a s = (ok a, s)

abbrev pub raise : {A : Type 0} → Error → Query A
raise e s = (err e, s)

-- A pure computation that may raise.
abbrev pub lift : {A : Type 0} → Result A → Query A
lift r s = (r, s)

abbrev pub select : {A : Type 0} → (Db → A) → Query A
select f s = (ok (f s.db), s)

-- `flush`: the new tables if the constraints admit them, and the driver's error otherwise.
abbrev pub flush : (Db → Result Db) → Query (Unit {0})
flush write s = elim (write s.db) [
  | ok db ↦ (ok tt, record { db = db; failed = s.failed })
  | err e ↦ (err e, record { db = s.db; failed = true })
]

-- `try: m; except C as e: ...; return`, and then the rest: the classes C by a test. What the
-- session holds stays.
abbrev pub try_except :
    {A B : Type 0} → Query A → (Error → Bool) → (Error → Query B) → (A → Query B) → Query B
try_except m catches on_error rest s =
    let (r, s') = m s in
    elim r [ ok a ↦ rest a s' | err e ↦ if catches e then on_error e s' else (err e, s') ]
