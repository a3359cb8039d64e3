-- ===== src/Tests/Service.antt =====
-- Examples of the application.
use fast_api_ddd_template.Base.{refl, List, [], ◌∷◌}
use fast_api_ddd_template.Database.Invariant.{IsConsistent}
use fast_api_ddd_template.Http.Routes.{Call}
use fast_api_ddd_template.Database.Invariant.UserMethods.{IsHasher}
use fast_api_ddd_template.Http.Keeps.Service.{Arrival, serve_all, serve_all-IsConsistent}
use fast_api_ddd_template.Tests.Data.{
  two_accounts-IsConsistent, world, deployment, hash, draws, root_request, bare_request,
}

hash-IsHasher : IsHasher hash
hash-IsHasher raw = refl

-- An administrator registers an account, and somebody logs in to it.
abbrev arrivals : List Arrival
arrivals =
    record {
      request = root_request;
      call =
          Call.create_user
            (record { username = "john_brown"; password = "hunter22"; role = "user" });
      draws = draws;
      new_id = record { value = 3 };
      seconds = 1;
    }
    ∷ record {
      request = record bare_request { method = "POST"; path = "/auth/login" };
      call = Call.login "john_brown" "correct horse";
      draws = draws;
      new_id = record { value = 4 };
      seconds = 1;
    }
    ∷ []

serve_all-IsConsistent_example : IsConsistent (serve_all deployment arrivals world).db
serve_all-IsConsistent_example =
    serve_all-IsConsistent deployment arrivals world hash-IsHasher two_accounts-IsConsistent
