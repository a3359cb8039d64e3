-- ===== src/Tests/Startup.antt =====
-- Examples of the start-up: a database that is up after two rounds, and the bootstrap script.
use fast_api_ddd_template.Base.{
  ℕ, ◌+◌, ◌*◌, ◌≤◌, ◌≡◌, refl, arith, true, false, some, List, [], ◌∷◌, String, ltb,
}
use fast_api_ddd_template.Domain.Errors.{ok}
use fast_api_ddd_template.World.{World}
use fast_api_ddd_template.Domain.User.{User}
use fast_api_ddd_template.Database.Schema.{has_user}
use fast_api_ddd_template.Ports.Django.{django_ports}
use fast_api_ddd_template.Startup.Entrypoint as Entrypoint
use fast_api_ddd_template.Startup.Entrypoint.{Machine, Outcome, Round, done, wait_for_db}
use fast_api_ddd_template.Startup.Entrypoint.Rounds.{IsClock, IsLast, ending, wait_for_db-ends}
use fast_api_ddd_template.Startup.Entrypoint.Order.{IsPlanned}
use fast_api_ddd_template.Startup.Entrypoint.Main.{main-IsOrdered}
use fast_api_ddd_template.Startup.Bootstrap as Bootstrap
use fast_api_ddd_template.Startup.Bootstrap.{already_exists, admin_created}
use fast_api_ddd_template.Startup.Bootstrap.Adds.{is_named, django_adding}
use fast_api_ddd_template.Startup.Bootstrap.Once.{bootstrap-once}
use fast_api_ddd_template.Tests.Data.{world, two_accounts-IsConsistent}

-- The clock shows one second more at each round; the connection is made from the third on.
abbrev rounds : ℕ → Round
rounds n = record { connects = ltb 1 n; now = n * 1000000 }

rounds-IsClock : (timeout : ℕ) → IsClock 0 timeout rounds
rounds-IsClock timeout = record { begins = omega arith; sleeps = λ k. omega arith }

wait_for_db-ends_example :
    (n : ℕ) × (n ≤ 5 + 1)
    × IsLast 0 5 rounds n
    × (wait_for_db rounds 0 5 7 ≡ some (ending 0 5 (rounds n)))
wait_for_db-ends_example = wait_for_db-ends 0 5 rounds 7 (rounds-IsClock 5) (omega arith)

abbrev machine : Machine
machine = record {
  environ = ("APP_DB_HOST", "db") ∷ ("INTERFACE", "django") ∷ ("BOOTSTRAP_FLAG", " Yes ") ∷ [];
  ran = [];
}

-- Every command succeeds.
abbrev codes : List String → ℕ
codes cmd = 0

main-IsOrdered_example :
    (p : Outcome (List String) × Machine) × (Entrypoint.main rounds 0 codes 62
        ("uvicorn" ∷ [])
        machine
      ≡ some p)
    × IsPlanned codes machine.environ p
    × ((c : List String) → p.0 ≡ done c → (n : ℕ) × ((rounds n).connects ≡ true))
main-IsOrdered_example =
    main-IsOrdered codes rounds 0 62 ("uvicorn" ∷ []) machine (rounds-IsClock 60) (omega arith) refl

-- A text of 60 characters.
abbrev hash_text : String
hash_text = "$2b$12$abcdefghijklmnopqrstuvwxyzABCDEFGHIJKLMNOPQRSTUVWXYZ0"

abbrev first_admin : User
first_admin = record {
  id = record { value = 3 };
  username = record { value = "first_admin" };
  password_hash = record { value = Bootstrap.encode hash_text };
  role = fast_api_ddd_template.Domain.Values.admin;
  is_active = true;
}

abbrev after_bootstrap : World
after_bootstrap =
    (Bootstrap.main ⦃ports = django_ports⦄ (record { value = 3 }) "first_admin" hash_text world).1

bootstraps :
    Bootstrap.main ⦃ports = django_ports⦄ (record { value = 3 }) "first_admin" hash_text world
    ≡ (ok (admin_created first_admin), after_bootstrap)
unfolding Bootstrap.main fast_api_ddd_template.Domain.Values.new_username
    fast_api_ddd_template.Domain.Values.new_password_hash
    fast_api_ddd_template.DjangoOrm.UserRepo.add
    fast_api_ddd_template.DjangoOrm.UnitOfWork.with_repo
    fast_api_ddd_template.Database.Schema.insert_user
bootstraps = refl

fresh_again : has_user 4 after_bootstrap.db.users ≡ false
unfolding Bootstrap.main fast_api_ddd_template.Domain.Values.new_username
    fast_api_ddd_template.Domain.Values.new_password_hash
    fast_api_ddd_template.DjangoOrm.UserRepo.add
    fast_api_ddd_template.DjangoOrm.UnitOfWork.with_repo
    fast_api_ddd_template.Database.Schema.insert_user
fresh_again = refl

bootstrap-once_example :
    (is_named "first_admin" after_bootstrap.db.users ≡ true)
    × ((Bootstrap.main ⦃ports = django_ports⦄
          (record { value = 4 })
          "first_admin"
          hash_text
          after_bootstrap).0
        ≡ ok already_exists)
    × ((Bootstrap.main ⦃ports = django_ports⦄
          (record { value = 4 })
          "first_admin"
          hash_text
          after_bootstrap).1.db
        ≡ after_bootstrap.db)
bootstrap-once_example =
    bootstrap-once ⦃ports = django_ports⦄ (record { value = 3 }) (record { value = 4 })
      "first_admin" hash_text (admin_created first_admin) world after_bootstrap
      two_accounts-IsConsistent refl fresh_again bootstraps refl
