-- ===== src/Startup/Entrypoint/Order.antt =====
-- The commands of the entrypoint, and the order in which it runs them.
use fast_api_ddd_template.Base.{
  ℕ, ◌≡◌, refl, arith, Bool, true, false, Option, none, some, List, [], ◌∷◌, ◌++◌, String, ◌⊎◌, inl,
  inr, All, ap, sym, subst, ◌∙◌, if◌then◌else◌,
}
use fast_api_ddd_template.Startup.Entrypoint.{
  Environ, getenv, Machine, Outcome, done, stop, Step, interface_of, is_true, migration, bootstrap,
  migrate_and_bootstrap, command, run, env_bool, set_module, Stop, ◌>>=◌, run_both, when,
  command_failed, not_in_list, after_uvicorn, wants_debugger, debugger, must_be_set,
}

-- Whether BOOTSTRAP_FLAG is set, and to a true value.
abbrev pub flag_of : Option String → Bool
flag_of (some v) = is_true v
flag_of none = false

abbrev pub planned : List String → List String → Bool → List (List String)
planned migrate boot flag = if flag then migrate ∷ boot ∷ [] else migrate ∷ []

-- The commands run are a beginning of the plan, and the bootstrap is among them only after a
-- migration that succeeded; where the container goes on, they are the plan, and all succeeded.
abbrev pub IsOrdered :
    {A : Type 0}
    → (List String → ℕ)
    → List String
    → List String
    → Bool
    → Outcome A × Machine
    → Type 0
IsOrdered returncode migrate boot flag (done c, s) =
    (s.ran ≡ planned migrate boot flag) × All (λ cmd. returncode cmd ≡ 0) s.ran
IsOrdered returncode migrate boot flag (stop e, s) =
    (s.ran ≡ [])
    ⊎ (s.ran ≡ migrate ∷ [])
    ⊎ ((s.ran ≡ planned migrate boot flag) × (returncode migrate ≡ 0))

module _ {A B : Type 0} (m : Step A) (k : A → Step B) (s t : Machine) where
  abbrev rest_of : Outcome A × Machine → Outcome B × Machine
  rest_of p = elim p.0 [ done a ↦ k a p.1 | stop e ↦ (stop e, p.1) ]

  pub bind-done : (a : A) → m s ≡ (done a, t) → (m >>= k) s ≡ k a t
  bind-done a h = ap rest_of h

  pub bind-stop : (e : Stop) → m s ≡ (stop e, t) → (m >>= k) s ≡ (stop e, t)
  bind-stop e h = ap rest_of h

getenv-append :
    (env : Environ) (v : String)
    → getenv "BOOTSTRAP_FLAG" (env ++ ("DJANGO_SETTINGS_MODULE", v) ∷ [])
      ≡ getenv "BOOTSTRAP_FLAG" env
getenv-append [] v = refl
getenv-append ((k, t) ∷ env) v = ground (arith, getenv-append env v)

-- The variable that is set is not BOOTSTRAP_FLAG, and nothing is run.
set_module-flag :
    (interface : String) (s : Machine)
    → (getenv "BOOTSTRAP_FLAG" (set_module interface s).1.environ
        ≡ getenv "BOOTSTRAP_FLAG" s.environ)
      × ((set_module interface s).1.ran ≡ s.ran)
      × ((set_module interface s).0 ≡ done tt)
set_module-flag interface s = ground (arith, getenv-append s.environ "app.interface.drf.settings")

module _ (returncode : List String → ℕ) where
  abbrev after : List String → Machine → Machine
  after cmd s = record s { ran = s.ran ++ cmd ∷ [] }

  run-cases :
      (cmd : List String) (s : Machine)
      → ((run returncode cmd s ≡ (done tt, after cmd s)) × (returncode cmd ≡ 0))
        ⊎ (run returncode cmd s ≡ (stop (command_failed cmd), after cmd s))
  unfolding run
  run-cases cmd s = ground arith

  -- The flag, where the variable is set.
  env_bool-flag :
      (s : Machine) (o : Option String)
      → getenv "BOOTSTRAP_FLAG" s.environ ≡ o
      → (env_bool "BOOTSTRAP_FLAG" none s ≡ (done (flag_of o), s))
        ⊎ (env_bool "BOOTSTRAP_FLAG" none s ≡ (stop (must_be_set "BOOTSTRAP_FLAG"), s))
  unfolding env_bool
  env_bool-flag s none e = inr (ground (arith, e))
  env_bool-flag s (some v) e = inl (ground (arith, e))

  module _ (migrate boot : List String) where
    abbrev Ordered : {A : Type 0} → Bool → Outcome A × Machine → Type 0
    Ordered flag = IsOrdered returncode migrate boot flag

    second-IsOrdered :
        (s : Machine) (b : Bool)
        → s.ran ≡ migrate ∷ []
        → returncode migrate ≡ 0
        → Ordered b (when b (run returncode boot) s)
    second-IsOrdered s false r z = (r, rw r (z, tt))
    second-IsOrdered s true r z = elim (run-cases boot s) [
      | inl (e, y) ↦ subst (Ordered true) (sym e) (rw r (refl, (z, (y, tt))))
      | inr e ↦ subst (Ordered true) (sym e) (rw r (inr (inr (refl, z))))
    ]

    run_both-IsOrdered :
        (s : Machine)
        → s.ran ≡ []
        → Ordered (flag_of (getenv "BOOTSTRAP_FLAG" s.environ)) (run_both returncode migrate boot s)
    run_both-IsOrdered s fresh =
        let o = getenv "BOOTSTRAP_FLAG" s.environ in
        let t = after migrate s in
        let one : t.ran ≡ migrate ∷ [] = ap (λ ran. ran ++ migrate ∷ []) fresh in
        let flagged : Bool → Step (Unit {0}) = λ flag. when flag (run returncode boot) in
        let rest = env_bool "BOOTSTRAP_FLAG" none >>= flagged in
        elim (run-cases migrate s) [
          | inr e ↦
              subst (Ordered (flag_of o))
                (sym
                  (bind-stop (run returncode migrate) (λ _. rest) s t (command_failed migrate) e))
                (inr (inl one))
          | inl (e, z) ↦
              subst (Ordered (flag_of o))
                (sym (bind-done (run returncode migrate) (λ _. rest) s t tt e))
                (elim (env_bool-flag t o refl) [
                  | inl q ↦
                      subst (Ordered (flag_of o))
                        (sym (bind-done (env_bool "BOOTSTRAP_FLAG" none) flagged t t (flag_of o) q))
                        (second-IsOrdered t (flag_of o) one z)
                  | inr q ↦
                      subst (Ordered (flag_of o))
                        (sym (
                          bind-stop (env_bool "BOOTSTRAP_FLAG" none) flagged t t
                            (must_be_set "BOOTSTRAP_FLAG") q))
                        (inr (inl one))
                ])
        ]

    pub first_succeeds :
        (flag : Bool) (ran : List (List String))
        → ran ≡ planned migrate boot flag
        → All (λ cmd. returncode cmd ≡ 0) ran
        → returncode migrate ≡ 0
    first_succeeds true ran e h = (subst (All (λ cmd. returncode cmd ≡ 0)) e h).0
    first_succeeds false ran e h = (subst (All (λ cmd. returncode cmd ≡ 0)) e h).0

  -- The step that makes the command runs none.
  pub command-cases :
      (cmd : List String) (s : Machine)
      → ((c : List String) × (command cmd s ≡ (done c, s)))
        ⊎ (command cmd s ≡ (stop not_in_list, s))
  unfolding command
  command-cases cmd s = go (wants_debugger s) refl
    where
      debugged :
          (o : Option (List String))
          → after_uvicorn cmd ≡ o
          → wants_debugger s ≡ true
          → ((c : List String) × (command cmd s ≡ (done c, s)))
            ⊎ (command cmd s ≡ (stop not_in_list, s))
      debugged none q e = inr (ground (arith, e, q))
      debugged (some args) q e = inl (debugger args, ground (arith, e, q))

      go :
          (b : Bool)
          → wants_debugger s ≡ b
          → ((c : List String) × (command cmd s ≡ (done c, s)))
            ⊎ (command cmd s ≡ (stop not_in_list, s))
      go true e = debugged (after_uvicorn cmd) refl e
      go false e = inl (cmd, ground (arith, e))

  abbrev pub IsPlanned : {A : Type 0} → Environ → Outcome A × Machine → Type 0
  IsPlanned env =
      let interface = interface_of env in
      IsOrdered returncode (migration interface) (bootstrap interface)
        (flag_of (getenv "BOOTSTRAP_FLAG" env))

  pub migrate_and_bootstrap-IsOrdered :
      (s : Machine) → s.ran ≡ [] → IsPlanned s.environ (migrate_and_bootstrap returncode s)
  unfolding migrate_and_bootstrap
  migrate_and_bootstrap-IsOrdered s fresh =
      let interface = interface_of s.environ in
      let (flag, ran, went) = set_module-flag interface s in
      let t = (set_module interface s).1 in
      let both = run_both-IsOrdered (migration interface) (bootstrap interface) t (ran ∙ fresh) in
      subst (IsPlanned s.environ)
        (sym (
          bind-done (set_module interface)
            (λ _. run_both returncode (migration interface) (bootstrap interface)) s t tt
            (ap (λ r. (r, t)) went)))
        (subst
          (λ (o : Option String).
            IsOrdered returncode (migration interface) (bootstrap interface) (flag_of o)
              (run_both returncode (migration interface) (bootstrap interface) t))
          flag both)
