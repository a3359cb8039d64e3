-- ===== src/Startup/Entrypoint.antt =====
-- entrypoint.py: the container waits for the database, migrates it, runs the bootstrap script and
-- becomes the command that it was given.
pub mod Rounds
pub mod Order
pub mod Main
use fast_api_ddd_template.Base.{
  ℕ, zero, suc, ◌+◌, ◌-◌, ◌*◌, ◌==◌, Bool, true, false, ◌||◌, Option, none, some, List, [], ◌∷◌,
  ◌++◌, String, str_eq, ltb, first, if◌then◌else◌,
}
use fast_api_ddd_template.Base.Text.{ends_with, strip, lower}

-- `os.environ`, in its order.
abbrev pub Environ : Type 0
Environ = List (String × String)

abbrev pub getenv : String → Environ → Option String
getenv name [] = none
getenv name ((k, v) ∷ env) = if str_eq k name then some v else getenv name env

-- How the container stops: by `SystemExit` with a message, or because a command failed.
pub data Stop : Type 0 where
  must_be_set : String → Stop
  no_command : Stop
  no_db_host : Stop
  empty_db_host : String → Stop
  unreachable : String → ℕ → ℕ → Stop
  command_failed : List String → Stop
  -- the ValueError of `cmd.index`
  not_in_list : Stop

-- The environment, and the commands that were run.
pub record Machine : Type 0 where
  pub environ : Environ
  pub ran : List (List String)

pub data Outcome (A : Type 0) : Type 0 where
  done : A → Outcome A
  stop : Stop → Outcome A

abbrev pub Step : Type 0 → Type 0
Step A = Machine → Outcome A × Machine

infixl 5 ◌>>=◌ ◌>>◌
abbrev pub ◌>>=◌ : {A B : Type 0} → Step A → (A → Step B) → Step B
◌>>=◌ m f s = let (r, s') = m s in elim r [ done a ↦ f a s' | stop e ↦ (stop e, s') ]

abbrev pub ◌>>◌ : {A B : Type 0} → Step A → Step B → Step B
m >> k = m >>= λ _. k

abbrev pub pure : {A : Type 0} → A → Step A
pure a s = (done a, s)

abbrev pub raise : {A : Type 0} → Stop → Step A
raise e s = (stop e, s)

abbrev pub is_true : String → Bool
is_true v =
    let text = lower (strip v) in
    str_eq text "1" || str_eq text "true" || str_eq text "yes" || str_eq text "on"

-- `_env_bool`
unfoldable pub env_bool : String → Option Bool → Step Bool
unfolding lower strip
env_bool name default s = elim (getenv name s.environ) [
  | some v ↦ (done (is_true v), s)
  | none ↦ elim default [ some b ↦ (done b, s) | none ↦ (stop (must_be_set name), s) ]
]

-- One round of the loop of `wait_for_db`: whether the connection is made, and the time, in
-- microseconds, that is read after it.
pub record Round : Type 0 where
  pub connects : Bool
  pub now : ℕ

pub data Wait : Type 0 where
  -- the seconds that are printed, as microseconds
  ready : ℕ → Wait
  late : Wait

-- `wait_for_db`: the rounds of the loop, on fuel; none where the fuel is out.
unfoldable pub wait_for_db : (ℕ → Round) → ℕ → ℕ → ℕ → Option Wait
wait_for_db rounds start timeout zero = none
wait_for_db rounds start timeout (suc fuel) =
    let rest = wait_for_db (λ k. rounds (suc k)) start timeout fuel in
    if (rounds 0).connects
    then some (ready ((rounds 0).now - start))
    else if ltb (timeout * 1000000) ((rounds 0).now - start)
    then some late
    else rest

-- `run`, where a command ends with the given code.
unfoldable pub run : (List String → ℕ) → List String → Step (Unit {0})
run returncode cmd s =
    let s' = record s { ran = s.ran ++ cmd ∷ [] } in
    if returncode cmd == 0 then (done tt, s') else (stop (command_failed cmd), s')

abbrev pub interface_of : Environ → String
interface_of env = elim (getenv "INTERFACE" env) [ some v ↦ v | none ↦ "fastapi" ]

-- `os.environ.setdefault`
abbrev pub setdefault : String → String → Step (Unit {0})
setdefault name v s = elim (getenv name s.environ) [
  | some _ ↦ (done tt, s)
  | none ↦ (done tt, record s { environ = s.environ ++ (name, v) ∷ [] })
]

-- The commands that are run, by INTERFACE.
abbrev pub migration : String → List String
migration interface =
    if str_eq interface "django"
    then "python" ∷ "-m" ∷ "django" ∷ "migrate" ∷ "--no-input" ∷ []
    else "alembic" ∷ "upgrade" ∷ "head" ∷ []

abbrev pub bootstrap : String → List String
bootstrap interface =
    "python"
    ∷ "-m"
    ∷ (if str_eq interface "django"
        then "app.scripts.bootstrap_django"
        else "app.scripts.bootstrap")
    ∷ []

abbrev pub when : Bool → Step (Unit {0}) → Step (Unit {0})
when b m s = if b then m s else (done tt, s)

abbrev pub set_module : String → Step (Unit {0})
set_module interface =
    when (str_eq interface "django")
      (setdefault "DJANGO_SETTINGS_MODULE" "app.interface.drf.settings")

-- One command, and another where BOOTSTRAP_FLAG says so.
abbrev pub run_both : (List String → ℕ) → List String → List String → Step (Unit {0})
run_both returncode migrate boot =
    run returncode migrate
    >> (env_bool "BOOTSTRAP_FLAG" none >>= λ flag. when flag (run returncode boot))

-- `migrate_and_bootstrap`
unfoldable pub migrate_and_bootstrap : (List String → ℕ) → Step (Unit {0})
unfolding env_bool run
migrate_and_bootstrap returncode s =
    let interface = interface_of s.environ in
    (set_module interface >> run_both returncode (migration interface) (bootstrap interface)) s

-- `cmd[cmd.index("uvicorn")+1:]`
abbrev pub after_uvicorn : List String → Option (List String)
after_uvicorn [] = none
after_uvicorn (arg ∷ args) = if str_eq arg "uvicorn" then some args else after_uvicorn args

abbrev pub debugger : List String → List String
debugger args =
    "python" ∷ "-Xfrozen_modules=off" ∷ "-m" ∷ "debugpy" ∷ "--listen" ∷ "0.0.0.0:5678"
    ∷ "--wait-for-client" ∷ "-m" ∷ "uvicorn" ∷ args

abbrev pub wants_debugger : Machine → Bool
wants_debugger s = elim (getenv "DEBUG" s.environ) [ some v ↦ str_eq v "true" | none ↦ false ]

-- The command that the container becomes: under a debugger where DEBUG is "true".
unfoldable pub command : List String → Step (List String)
command cmd s =
    if wants_debugger s
    then elim (after_uvicorn cmd) [
      | none ↦ (stop not_in_list, s)
      | some args ↦ (done (debugger args), s)
    ]
    else (done cmd, s)

-- The value of the first variable whose name ends in DB_HOST.
unfoldable pub db_host : Step String
unfolding ends_with
db_host s = elim (first (λ (kv : String × String). ends_with kv.0 "DB_HOST") s.environ) [
  | none ↦ (stop no_db_host, s)
  | some (k, v) ↦ if str_eq v "" then (stop (empty_db_host k), s) else (done v, s)
]

-- The wait, as the rest of `main` meets it.
abbrev pub waited : String → Wait → Step (Unit {0})
waited host (ready elapsed) s = (done tt, s)
waited host late s = (stop (unreachable host 5432 60), s)

-- `main` from the wait on.
abbrev pub start_up : (List String → ℕ) → List String → String → Wait → Step (List String)
start_up returncode cmd host w = waited host w >> migrate_and_bootstrap returncode >> command cmd

-- `main`, up to `os.execvp` with the command that it returns; none where the fuel is out.
unfoldable pub main :
    (ℕ → Round)
    → ℕ
    → (List String → ℕ)
    → ℕ
    → List String
    → Machine
    → Option (Outcome (List String) × Machine)
unfolding wait_for_db db_host migrate_and_bootstrap command
main rounds start returncode fuel [] s = some (stop no_command, s)
main rounds start returncode fuel (arg ∷ args) s = elim (db_host s).0 [
  | stop e ↦ some (stop e, s)
  | done host ↦ elim (wait_for_db rounds start 60 fuel) [
    | none ↦ none
    | some w ↦ some (start_up returncode (arg ∷ args) host w s)
  ]
]
