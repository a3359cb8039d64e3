-- ===== src/World.antt =====
-- What outlives a request: the committed tables and the log.
pub mod Preserves
use fast_api_ddd_template.Base.{Bool, String, List, [], ◌∷◌, ◌++◌, if◌then◌else◌}
use fast_api_ddd_template.Domain.Errors.{Error, Result, ok, err}
use fast_api_ddd_template.Database.{Db}

-- The records that the code logs, with the fields that tell them apart.
pub data Event : Type 0 where
  -- unhandled infra-layer error in UoW
  unhandled_in_uow : Error → Event
  auth_failed : String → Event
  auth_succeeded : String → Event
  -- access_denied: the use case and the user's id
  access_denied : String → String → Event
  user_created user_updated user_deleted password_changed : String → Event
  -- the user's id and the session's id
  login token_refresh logout : String → String → Event
  unhandled_exception : Error → Event

pub record World : Type 0 where
  pub db : Db
  pub log : List Event

abbrev pub Action : Type 0 → Type 0
Action A = World → Result A × World

infixl 5 ◌>>=◌ ◌>>◌
abbrev pub ◌>>=◌ : {A B : Type 0} → Action A → (A → Action B) → Action B
◌>>=◌ m f w = let (r, w') = m w in elim r [ ok a ↦ f a w' | err e ↦ (err e, w') ]

abbrev pub ◌>>◌ : {A B : Type 0} → Action A → Action B → Action B
m >> k = m >>= λ _. k

abbrev pub pure : {A : Type 0} → A → Action A
pure a w = (ok a, w)

abbrev pub raise : {A : Type 0} → Error → Action A
raise e w = (err e, w)

-- A pure computation that may raise.
abbrev pub lift : {A : Type 0} → Result A → Action A
lift r w = (r, w)

-- `logger.info(...)`, `logger.warning(...)`, `logger.error(...)`
abbrev pub write_log : Event → Action (Unit {0})
write_log e w = (ok tt, record w { log = w.log ++ e ∷ [] })

-- `try: m; except C as e: ...; return`, and then the rest: the classes C by a test.
abbrev pub try_except :
    {A B : Type 0} → Action A → (Error → Bool) → (Error → Action B) → (A → Action B) → Action B
try_except m catches on_error rest w =
    let (r, w') = m w in
    elim r [ ok a ↦ rest a w' | err e ↦ if catches e then on_error e w' else (err e, w') ]
