-- ===== src/Ports/Laws.antt =====
-- What the use cases rely on for the invariant of the tables: the laws of the ports.
use fast_api_ddd_template.Domain.Values.{UserId, Username}
use fast_api_ddd_template.Domain.User.{User}
use fast_api_ddd_template.Database.{Query}
use fast_api_ddd_template.Database.Invariant.{IsValid}
use fast_api_ddd_template.Database.Ensures.{Ensures, Anything}
use fast_api_ddd_template.Database.UserRepo.Keeps.{IsValid?}
use fast_api_ddd_template.World.Preserves.{Preserves}
use fast_api_ddd_template.Ports.{Ports}

-- Each method keeps the invariant and returns valid users, from valid users where it takes one; a
-- unit of work keeps the invariant if its body does.
pub record IsLawful (ports : Ports) : Type 1 where
  pub get_by_id_ensures : (i : UserId) → Ensures IsValid? (ports.get_by_id i)
  pub get_by_username_ensures : (n : Username) → Ensures IsValid? (ports.get_by_username n)
  pub add_ensures : (u : User) → IsValid u → Ensures Anything (ports.add u)
  pub update_ensures : (u : User) → IsValid u → Ensures Anything (ports.update u)
  pub get_all_ensures : Ensures Anything ports.get_all
  pub with_users_preserves :
      {A : Type 0} {P : A → Type 0} (q : Query A) → Ensures P q → Preserves P (ports.with_users q)
