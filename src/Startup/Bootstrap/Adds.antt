-- ===== src/Startup/Bootstrap/Adds.antt =====
-- A user added in a unit of work of its own, on either stack.
use fast_api_ddd_template.Base.{
  ℕ, ◌≡◌, refl, arith, Bool, true, false, List, [], ◌∷◌, ◌++◌, String, exists, str_eq, eq_refl,
  Bool-cases, inl, inr, ◌⊎◌, concat,
}
use fast_api_ddd_template.Domain.Errors.{
  Error, ok, err, duplicate_username_error, integrity_error, is_duplicate_username_error,
}
use fast_api_ddd_template.Domain.User.{User}
use fast_api_ddd_template.Database.{UserRow, Db}
use fast_api_ddd_template.Database.Invariant.{IsValid, IsConsistent}
use fast_api_ddd_template.Database.Mapping.{to_row}
use fast_api_ddd_template.Database.Schema.{insert_user, check_user, has_user, username_taken}
use fast_api_ddd_template.Database.UserRepo.{renamed}
use fast_api_ddd_template.World.{World}
use fast_api_ddd_template.UnitOfWork.Manager.{log_unhandled}
use fast_api_ddd_template.Ports.{Ports}
use fast_api_ddd_template.Database.UserRepo as Sql
use fast_api_ddd_template.DjangoOrm.UserRepo as Django
use fast_api_ddd_template.UnitOfWork.{user_repository}
use fast_api_ddd_template.UnitOfWork.Atomic.{with_repo-atomic}
use fast_api_ddd_template.DjangoOrm.UnitOfWork.Atomic.{with_repo-atomic_block, no_orphan}
use fast_api_ddd_template.Ports.Sql.{sql_ports}
use fast_api_ddd_template.Ports.Django.{django_ports}
use fast_api_ddd_template.Database.Invariant.UserWrites.{insert_user-IsConsistent}

-- A row has the username.
abbrev pub is_named : String → List UserRow → Bool
is_named name = exists (λ (r : UserRow). str_eq r.username name)

-- Where no row has the id, the other rows are all rows.
taken_iff :
    (i : ℕ) (name : String) (users : List UserRow)
    → has_user i users ≡ false
    → username_taken i name users ≡ is_named name users
taken_iff i name [] h = refl
taken_iff i name (x ∷ xs) h = ground (arith, taken_iff i name xs)

pub named_append :
    (name : String) (users : List UserRow) (r : UserRow)
    → r.username ≡ name
    → is_named name (users ++ r ∷ []) ≡ true
named_append name [] r e = rw e (ground (arith, eq_refl name))
named_append name (x ∷ xs) r e = ground (arith, named_append name xs r e)

-- The insert of a valid user under a fresh id is refused exactly where its username is taken.
insert_refused :
    (u : User) (db : Db)
    → IsValid u
    → has_user u.id.value db.users ≡ false
    → (is_named u.username.value db.users ≡ true
        × (insert_user (to_row u) db ≡ err (integrity_error "uq_user_username")))
      ⊎ (is_named u.username.value db.users ≡ false
          × (insert_user (to_row u) db ≡ ok (record db { users = db.users ++ to_row u ∷ [] })))
unfolding insert_user check_user
insert_refused u db v f =
    let a = v.long_enough in
    let b = v.short_enough in
    let c = taken_iff u.id.value u.username.value db.users f in
    elim (Bool-cases (is_named u.username.value db.users)) [
      | inl e ↦ inl (e, ground (arith, e, a, b, c, f))
      | inr e ↦ inr (e, ground (arith, e, a, b, c, f))
    ]

-- The world with the user in its tables.
abbrev pub with_user : User → World → World
with_user u w = record w {
  db = record { users = w.db.users ++ to_row u ∷ []; sessions = w.db.sessions };
}

-- A valid user under a fresh id is added where its username is free, and refused as a duplicate,
-- with no change of the tables, where it is taken.
pub record AddsUsers (ports : Ports) : Type 0 where
  pub adds :
      (u : User) (w : World)
      → IsValid u
      → IsConsistent w.db
      → has_user u.id.value w.db.users ≡ false
      → is_named u.username.value w.db.users ≡ false
      → ports.with_users (ports.add u) w ≡ (ok tt, with_user u w)
  pub refuses :
      (u : User) (w : World)
      → IsValid u
      → has_user u.id.value w.db.users ≡ false
      → is_named u.username.value w.db.users ≡ true
      → (e : Error) × (is_duplicate_username_error e ≡ true)
        × (ports.with_users (ports.add u) w ≡ (err e, log_unhandled e w))

sql_adds :
    (u : User) (w : World)
    → IsValid u
    → has_user u.id.value w.db.users ≡ false
    → is_named u.username.value w.db.users ≡ false
    → sql_ports.with_users (sql_ports.add u) w ≡ (ok tt, with_user u w)
unfolding Sql.add
sql_adds u w v f n = elim (insert_refused u w.db v f) [
  | inl (e, q) ↦ absurd (ground (arith, n, e))
  | inr (e, q) ↦ ground (arith, with_repo-atomic user_repository (Sql.add u) w tt, q)
]

sql_refuses :
    (u : User) (w : World)
    → IsValid u
    → has_user u.id.value w.db.users ≡ false
    → is_named u.username.value w.db.users ≡ true
    → (e : Error) × (is_duplicate_username_error e ≡ true)
      × (sql_ports.with_users (sql_ports.add u) w ≡ (err e, log_unhandled e w))
unfolding Sql.add
sql_refuses u w v f n = elim (insert_refused u w.db v f) [
  | inr (e, q) ↦ absurd (ground (arith, n, e))
  | inl (e, q) ↦
      let m = concat "User " (concat u.username.value " already exists") in
      (
        duplicate_username_error m,
        refl,
        ground (arith, with_repo-atomic user_repository (Sql.add u) w tt, q),
      )
]

django_adds :
    (u : User) (w : World)
    → IsValid u
    → IsConsistent w.db
    → has_user u.id.value w.db.users ≡ false
    → is_named u.username.value w.db.users ≡ false
    → django_ports.with_users (django_ports.add u) w ≡ (ok tt, with_user u w)
unfolding Django.add
django_adds u w v c f n = elim (insert_refused u w.db v f) [
  | inl (e, q) ↦ absurd (ground (arith, n, e))
  | inr (e, q) ↦
      let db' : Db = (with_user u w).db in
      let k : IsConsistent db' = insert_user-IsConsistent (to_row u) w.db v.hash_length c q in
      ground (
        arith,
        with_repo-atomic_block user_repository (Django.add u) w tt,
        q,
        no_orphan db' db'.sessions k.sessions_owned,
      )
]

django_refuses :
    (u : User) (w : World)
    → IsValid u
    → has_user u.id.value w.db.users ≡ false
    → is_named u.username.value w.db.users ≡ true
    → (e : Error) × (is_duplicate_username_error e ≡ true)
      × (django_ports.with_users (django_ports.add u) w ≡ (err e, log_unhandled e w))
unfolding Django.add
django_refuses u w v f n = elim (insert_refused u w.db v f) [
  | inr (e, q) ↦ absurd (ground (arith, n, e))
  | inl (e, q) ↦
      let m = concat "User " (concat u.username.value " already exists") in
      (
        duplicate_username_error m,
        refl,
        ground (arith, with_repo-atomic_block user_repository (Django.add u) w tt, q),
      )
]

instance pub sql_adding : AddsUsers sql_ports
sql_adding = record { adds = λ u w v c f n. sql_adds u w v f n; refuses = sql_refuses }

instance pub django_adding : AddsUsers django_ports
django_adding = record { adds = django_adds; refuses = django_refuses }
