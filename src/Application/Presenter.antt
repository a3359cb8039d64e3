-- ===== src/Application/Presenter.antt =====
-- app/application/ports/presenters.py: `Presenter` and `AuthPresenter`. A method
-- returns the presenter with its new attributes.
use fast_api_ddd_template.Base.{Option, none, some, String}
use fast_api_ddd_template.Application.State.{State}

-- The attribute `response`, a DTO or a text.
pub data Response (D : Type 0) : Type 0 where
  dto : D → Response D
  text : String → Response D

pub record Presenter (D : Type 0) : Type 0 where
  pub state : Option State
  pub response : Option (Response D)

-- `Presenter.__init__`
abbrev pub new_presenter : {D : Type 0} → Presenter D
new_presenter = record { state = none; response = none }

module _ {D : Type 0} where
  abbrev pub present : D → Presenter D → Presenter D
  present d p = record { state = some State.ok; response = some (dto d) }

  abbrev pub refuse : State → String → Presenter D → Presenter D
  refuse s m p = record { state = some s; response = some (text m) }

  abbrev pub bad_request : String → Presenter D → Presenter D
  bad_request = refuse State.bad_request

  abbrev pub domain_error : String → Presenter D → Presenter D
  domain_error = refuse State.domain_error

  abbrev pub unauthorized : String → Presenter D → Presenter D
  unauthorized = refuse State.unauthorized

  abbrev pub forbidden : String → Presenter D → Presenter D
  forbidden = refuse State.forbidden

  abbrev pub conflict : String → Presenter D → Presenter D
  conflict = refuse State.conflict

  abbrev pub not_found : String → Presenter D → Presenter D
  not_found = refuse State.not_found
