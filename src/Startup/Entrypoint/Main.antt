-- ===== src/Startup/Entrypoint/Main.antt =====
-- `main` of the entrypoint ends, and runs its commands in order.
use fast_api_ddd_template.Base.{
  ℕ, ◌≤◌, ◌≡◌, refl, arith, Bool, true, some, List, [], ◌∷◌, String, inl, inr, sym, subst,
  if◌then◌else◌, Bool-cases, ◌-◌,
}
use fast_api_ddd_template.Startup.Entrypoint.{
  getenv, Machine, Outcome, done, stop, Round, ready, late, interface_of, migration, bootstrap,
  migrate_and_bootstrap, command, db_host, start_up, main, ◌>>◌, no_command, Wait, waited,
}
use fast_api_ddd_template.Startup.Entrypoint.Rounds.{IsClock, wait_for_db-ends, ending}
use fast_api_ddd_template.Startup.Entrypoint.Order.{
  flag_of, bind-done, bind-stop, first_succeeds, command-cases, IsPlanned,
  migrate_and_bootstrap-IsOrdered,
}

module _ (returncode : List String → ℕ) where
  -- Running the rest after the plan, which ends in the command, adds no command.
  command-IsOrdered :
      (cmd : List String) (s t : Machine)
      → IsPlanned returncode {A = Unit {0}} s.environ (done tt, t)
      → IsPlanned returncode s.environ (command cmd t)
  command-IsOrdered cmd s t h =
      let interface = interface_of s.environ in
      let flag = flag_of (getenv "BOOTSTRAP_FLAG" s.environ) in
      let z =
        first_succeeds returncode (migration interface) (bootstrap interface) flag t.ran h.0 h.1 in
      elim (command-cases returncode cmd t) [
        | inl (c, e) ↦ subst (IsPlanned returncode s.environ) (sym e) h
        | inr e ↦ subst (IsPlanned returncode s.environ) (sym e) (inr (inr (h.0, z)))
      ]

  start_up-IsOrdered :
      (cmd : List String) (host : String) (w : Wait) (s : Machine)
      → s.ran ≡ []
      → IsPlanned returncode s.environ (start_up returncode cmd host w s)
  start_up-IsOrdered cmd host late s fresh = inl fresh
  start_up-IsOrdered cmd host (ready elapsed) s fresh =
      go (migrate_and_bootstrap returncode s) refl
        (migrate_and_bootstrap-IsOrdered returncode s fresh)
    where
      go :
          (p : Outcome (Unit {0}) × Machine)
          → migrate_and_bootstrap returncode s ≡ p
          → IsPlanned returncode s.environ p
          → IsPlanned returncode s.environ (start_up returncode cmd host (ready elapsed) s)
      go (done a, t) e h =
          subst (IsPlanned returncode s.environ)
            (sym (
              bind-done (waited host (ready elapsed) >> migrate_and_bootstrap returncode)
                (λ _. command cmd) s t a e))
            (command-IsOrdered cmd s t h)
      go (stop x, t) e h =
          subst (IsPlanned returncode s.environ)
            (sym (
              bind-stop (waited host (ready elapsed) >> migrate_and_bootstrap returncode)
                (λ _. command cmd) s t x e))
            h

  starts-connects :
      (cmd : List String) (host : String) (start : ℕ) (r : Round) (s : Machine) (c : List String)
      → (start_up returncode cmd host (ending start 60 r) s).0 ≡ done c
      → r.connects ≡ true
  starts-connects cmd host start r s c h = elim (Bool-cases r.connects) [
    | inl e ↦ e
    | inr e ↦
        let k : (start_up returncode cmd host late s).0 ≡ done c =
          subst
            (λ (b : Bool).
              (start_up returncode cmd host (if b then ready (r.now - start) else late) s).0
              ≡ done c)
            e h in
        absurd (ground (arith, k))
  ]

  -- If the clock runs, `main` ends, whatever the environment, the command and the codes of the
  -- commands: by a stop, or by becoming a command, after the database has accepted a connection.
  -- It runs the migration of its interface and then, if BOOTSTRAP_FLAG says so, the bootstrap
  -- script of its interface; the script only after a migration that succeeded, and the command only
  -- after all of them did.
  pub main-IsOrdered :
      (rounds : ℕ → Round) (start fuel : ℕ) (cmd : List String) (s : Machine)
      → IsClock start 60 rounds
      → 62 ≤ fuel
      → s.ran ≡ []
      → (p : Outcome (List String) × Machine) × (main rounds start returncode fuel cmd s ≡ some p)
        × IsPlanned returncode s.environ p
        × ((c : List String) → p.0 ≡ done c → (n : ℕ) × ((rounds n).connects ≡ true))
  unfolding main
  main-IsOrdered rounds start fuel [] s clock f fresh =
      ((stop no_command, s), refl, inl fresh, λ c e. absurd (ground (arith, e)))
  main-IsOrdered rounds start fuel (arg ∷ args) s clock f fresh = go (db_host s).0 refl
    where
      go :
          (o : Outcome String)
          → (db_host s).0 ≡ o
          → (p : Outcome (List String) × Machine) × (main rounds start returncode fuel
                (arg ∷ args)
                s
              ≡ some p)
            × IsPlanned returncode s.environ p
            × ((c : List String) → p.0 ≡ done c → (n : ℕ) × ((rounds n).connects ≡ true))
      go (stop x) e = ((stop x, s), ground (arith, e), inl fresh, λ c q. absurd (ground (arith, q)))
      go (done host) e =
          let (n, l, last, q) = wait_for_db-ends start 60 rounds fuel clock f in
          let p = start_up returncode (arg ∷ args) host (ending start 60 (rounds n)) s in
          (
            p,
            ground (arith, e, q),
            start_up-IsOrdered (arg ∷ args) host (ending start 60 (rounds n)) s fresh,
            λ c k. (n, starts-connects (arg ∷ args) host start (rounds n) s c k),
          )
