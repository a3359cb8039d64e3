-- ===== src/UnitOfWork/Manager.antt =====
-- app/application/ports/uow.py: the abstract `UnitOfWork`, an asynchronous context manager over
-- the methods that a class on a database defines. `U` holds the attributes of such a class.
use fast_api_ddd_template.Base.{if◌then◌else◌, [], ◌∷◌, ◌++◌, Bool, true, false}
use fast_api_ddd_template.Domain.Errors.{Error, Result, ok, err, domain_error, application_error}
use fast_api_ddd_template.World.{World, Action, unhandled_in_uow}

-- The world and the unit of work in it.
pub record Scope (U : Type 0) : Type 0 where
  pub world : World
  pub uow : U

abbrev pub Step : Type 0 → Type 0 → Type 0
Step U A = Scope U → Result A × Scope U

infixl 5 ◌>>=◌ ◌>>◌
abbrev pub ◌>>=◌ : {U A B : Type 0} → Step U A → (A → Step U B) → Step U B
◌>>=◌ m f s = let (r, s') = m s in elim r [ ok a ↦ f a s' | err e ↦ (err e, s') ]

abbrev pub ◌>>◌ : {U A B : Type 0} → Step U A → Step U B → Step U B
m >> k = m >>= λ _. k

-- The abstract methods that the context manager calls.
pub record Methods (U : Type 0) : Type 0 where
  pub open_ : Step U (Unit {0})
  pub commit : Step U (Unit {0})
  pub rollback : Step U (Unit {0})
  pub close : Step U (Unit {0})

-- `exc_type not in (DomainError, ApplicationError)`: the class itself, no subclass.
abbrev pub is_unhandled : Error → Bool
is_unhandled (domain_error m) = false
is_unhandled (application_error m) = false
is_unhandled _ = true

abbrev pub log_unhandled : Error → World → World
log_unhandled e w =
    if is_unhandled e then record w { log = w.log ++ unhandled_in_uow e ∷ [] } else w

module _ {U : Type 0} (methods : Methods U) where
  -- The `try` of `__aexit__`.
  unfoldable pub leave : {A : Type 0} → Result A → Step U A
  leave (ok a) = do methods.commit; λ s. (ok a, s)
  leave (err e) = do
    (λ s. (ok tt, record s { world = log_unhandled e s.world }))
    methods.rollback
    λ s. (err e, s)

  -- `__aexit__`, with its `finally`; an exception of the body is raised again.
  unfoldable pub aexit : {A : Type 0} → Result A → Step U A
  unfolding leave
  aexit r s = let (r', s') = leave r s in (r', (methods.close s').1)

  -- `async with uow_factory() as uow: body`, where the factory makes the given unit of work.
  unfoldable pub async_with : {A : Type 0} → U → Step U A → Action A
  unfolding aexit
  async_with new body w =
      let (r, s) =
        (do methods.open_; λ s. let (r', s') = body s in aexit r' s')
          (record { world = w; uow = new }) in
      (r, s.world)
