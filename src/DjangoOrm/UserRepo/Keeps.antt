-- ===== src/DjangoOrm/UserRepo/Keeps.antt =====
-- The invariant of the tables under the methods of `UserRepositoryDjango`.
use fast_api_ddd_template.Base.{◌≡◌}
use fast_api_ddd_template.Domain.Values.{UserId, Username}
use fast_api_ddd_template.Domain.User.{User}
use fast_api_ddd_template.Database.{Session, Query}
use fast_api_ddd_template.Database.Invariant.{IsConsistent, IsValid}
use fast_api_ddd_template.Database.Ensures.{Ensures, Anything}
use fast_api_ddd_template.Database.UserRepo as Sql
use fast_api_ddd_template.Database.UserRepo.Keeps.{
  IsValid?, get_by_id-Ensures, get_by_username-Ensures, add-Ensures, update-Ensures,
  get_all-Ensures,
}
use fast_api_ddd_template.DjangoOrm.UserRepo as Django
use fast_api_ddd_template.DjangoOrm.UserRepo.Agrees.{
  get_by_id-agree, get_by_username-agree, update-agree,
}

-- A query that agrees with one that keeps the invariant keeps it.
pub agreeing :
    {A : Type 0} {P : A → Type 0} (q k : Query A)
    → ((s : Session) → IsConsistent s.db → q s ≡ k s)
    → Ensures P k
    → Ensures P q
agreeing q k e h = record { at = λ s c. rw (e s c) (h.at s c) }

pub get_by_id_keeps : (i : UserId) → Ensures IsValid? (Django.get_by_id i)
get_by_id_keeps i =
    agreeing (Django.get_by_id i) (Sql.get_by_id i) (get_by_id-agree i) (get_by_id-Ensures i)

pub get_by_username_keeps : (n : Username) → Ensures IsValid? (Django.get_by_username n)
get_by_username_keeps n =
    agreeing (Django.get_by_username n) (Sql.get_by_username n) (get_by_username-agree n)
      (get_by_username-Ensures n)

pub add_keeps : (u : User) → IsValid u → Ensures Anything (Django.add u)
unfolding Django.add Sql.add
add_keeps u v = record { at = (add-Ensures u v).at }

pub update_keeps : (u : User) → IsValid u → Ensures Anything (Django.update u)
update_keeps u v =
    agreeing (Django.update u) (Sql.update u) (λ s _. update-agree u s) (update-Ensures u v)

pub get_all_keeps : Ensures Anything Django.get_all
unfolding Django.get_all Sql.get_all
get_all_keeps = record { at = get_all-Ensures.at }
