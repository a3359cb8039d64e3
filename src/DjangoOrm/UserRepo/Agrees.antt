-- ===== src/DjangoOrm/UserRepo/Agrees.antt =====
-- `UserRepositoryDjango` against `UserRepositorySQL`.
use fast_api_ddd_template.Base.{
  ◌≡◌, refl, arith, true, false, Option, none, some, List, [], ◌∷◌, ◌==◌, count_where, exists,
  first, Option-cases, inl, inr, ℕ,
}
use fast_api_ddd_template.Base.Unique.{to_list, where-by_id, where-by_key}
use fast_api_ddd_template.Domain.Errors.{ok}
use fast_api_ddd_template.Domain.Values.{UserId, Username}
use fast_api_ddd_template.Domain.User.{User}
use fast_api_ddd_template.Database
use fast_api_ddd_template.Database.{UserRow, Session, Query, Db}
use fast_api_ddd_template.Database.Invariant.{IsConsistent, user_id_of, username_of}
use fast_api_ddd_template.Database.UserRepo as Sql
use fast_api_ddd_template.Database.UserRepo.{found, by_id, by_username}
use fast_api_ddd_template.DjangoOrm.Rows.{only, aget}
use fast_api_ddd_template.DjangoOrm.UserRepo as Django

pub only-to_list : {A : Type 0} (o : Option A) (s : Session) → only (to_list o) s ≡ (ok o, s)
only-to_list none s = refl
only-to_list (some a) s = refl

-- What `aget` finds where one row at most passes.
pub aget-first :
    {A : Type 0} (rows : Db → List A) (row : Db → Option A) (s : Session)
    → rows s.db ≡ to_list (row s.db)
    → aget rows s ≡ (ok (row s.db), s)
unfolding aget
aget-first rows row s e = rw e (only-to_list (row s.db) s)

asked :
    (o : Option UserRow) (rows : List UserRow) (s : Session)
    → rows ≡ to_list o
    → Database.◌>>=◌ (only rows) found s ≡ found o s
asked none rows s e = rw e
asked (some r) rows s e = rw e

pub get_by_id-agree :
    (i : UserId) (s : Session) → IsConsistent s.db → Django.get_by_id i s ≡ Sql.get_by_id i s
unfolding Django.get_by_id Sql.get_by_id
get_by_id-agree i s h =
    asked (by_id i.value s.db) _ s
      (where-by_id user_id_of username_of i.value _ (λ _ e. e) _ h.users_keyed)

pub get_by_username-agree :
    (n : Username) (s : Session)
    → IsConsistent s.db
    → Django.get_by_username n s ≡ Sql.get_by_username n s
unfolding Django.get_by_username Sql.get_by_username
get_by_username-agree n s h =
    asked (by_username n.value s.db) _ s
      (where-by_key user_id_of username_of n.value _ (λ _ e. e) _ h.users_keyed)

-- The rows that `update` matches on Django, where SQLAlchemy looks for one.
count_of_none :
    (i : ℕ) (xs : List UserRow)
    → first (λ (r : UserRow). r.id == i) xs ≡ none
    → (count_where (λ (r : UserRow). r.id == i) xs ≡ 0)
      × (exists (λ (r : UserRow). r.id == i) xs ≡ false)
count_of_none i [] h = (refl, refl)
count_of_none i (x ∷ xs) h = ground (arith, count_of_none i xs)

count_of_some :
    (i : ℕ) (xs : List UserRow) (u : UserRow)
    → first (λ (r : UserRow). r.id == i) xs ≡ some u
    → ((count_where (λ (r : UserRow). r.id == i) xs == 0) ≡ false)
      × (exists (λ (r : UserRow). r.id == i) xs ≡ true)
count_of_some i [] u h = cc
count_of_some i (x ∷ xs) u h = ground (arith, count_of_some i xs u)

pub update-agree : (u : User) (s : Session) → Django.update u s ≡ Sql.update u s
unfolding Django.update Sql.update
update-agree u s = elim (Option-cases (by_id u.id.value s.db)) [
  | inl e ↦ let c = count_of_none u.id.value s.db.users e in ground (arith, e, c)
  | inr (r, e) ↦ let c = count_of_some u.id.value s.db.users r e in ground (arith, e, c)
]

-- Two queries that return the same and leave the same session.
abbrev pub Agree : {A : Type 0} → Session → Query A → Query A → Type 0
Agree s q k = q s ≡ k s

-- On consistent tables, each method of `UserRepositoryDjango` returns or raises what the method of
-- `UserRepositorySQL` does, and leaves the session in the same state.
pub user_repository-agrees :
    (s : Session) (i : UserId) (n : Username) (u : User)
    → IsConsistent s.db
    → Agree s (Django.get_by_id i) (Sql.get_by_id i)
      × Agree s (Django.get_by_username n) (Sql.get_by_username n)
      × Agree s (Django.add u) (Sql.add u)
      × Agree s (Django.update u) (Sql.update u)
      × Agree s Django.get_all Sql.get_all
unfolding Django.add Sql.add Django.get_all Sql.get_all
user_repository-agrees s i n u h =
    (get_by_id-agree i s h, get_by_username-agree n s h, refl, update-agree u s, refl)
