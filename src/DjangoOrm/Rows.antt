-- ===== src/DjangoOrm/Rows.antt =====
-- What the repositories ask of Django's query sets.
use fast_api_ddd_template.Base.{Option, none, some, List, [], ◌∷◌}
use fast_api_ddd_template.Domain.Errors.{Error, other_error}
use fast_api_ddd_template.Database.{Query, ◌>>=◌, pure, raise, select, Db}

abbrev pub multiple_objects : Error
multiple_objects = other_error "MultipleObjectsReturned"

-- `try: await rows.aget()`, `except DoesNotExist: None`.
abbrev pub only : {A : Type 0} → List A → Query (Option A)
only [] = pure none
only (x ∷ []) = pure (some x)
only (x ∷ y ∷ more) = raise multiple_objects

unfoldable pub aget : {A : Type 0} → (Db → List A) → Query (Option A)
aget rows = do found ← select rows; only found
