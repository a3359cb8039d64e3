-- ===== src/Http/Presenting.antt =====
-- app/interface/http/utils.py, and the end of every route: the presenter as a response.
use fast_api_ddd_template.Base.{ℕ, Option, none, some, [], ◌∷◌, String}
use fast_api_ddd_template.Domain.Errors.{
  Error, Result, ok, err, value_error, other_error, http_exception,
}
use fast_api_ddd_template.Application.State.{State}
use fast_api_ddd_template.Application.Presenter.{Presenter, dto, text}
use fast_api_ddd_template.Http.Message.{Body, Reply, json}

-- The `match` of `raise_for_presenter_400_state`.
abbrev pub raise_for_state : Option State → String → Error
raise_for_state (some State.bad_request) m = http_exception 400 m []
raise_for_state (some State.unauthorized) m =
    http_exception 401 m (("www-authenticate", "Bearer") ∷ [])
raise_for_state (some State.forbidden) m = http_exception 403 m []
raise_for_state (some State.conflict) m = http_exception 409 m []
raise_for_state (some State.not_found) m = http_exception 404 m []
raise_for_state (some State.domain_error) m = http_exception 422 m []
raise_for_state _ m = value_error "Wrong presenter state"

-- The attribute `response` of a presenter that nobody called.
abbrev pub no_response : Error
no_response = other_error "AttributeError"

module _ {D : Type 0} where
  -- `raise_for_presenter_400_state`
  unfoldable pub raise_for_presenter_400_state : Presenter D → Error
  raise_for_presenter_400_state p = elim p.response [
    | none ↦ no_response
    | some (dto d) ↦ value_error "Wrong type for presenter response. str expected."
    | some (text m) ↦ raise_for_state p.state m
  ]

  -- A route from where `if isinstance(presenter.response, str)` stands.
  abbrev pub raise_for : Presenter D → Error
  raise_for p = elim p.response [
    | none ↦ no_response
    | some (dto d) ↦ value_error "Wrong presenter response type"
    | some (text m) ↦ raise_for_presenter_400_state p
  ]

  -- `if presenter.state is State.OK and isinstance(presenter.response, DTO)`
  abbrev pub ok_response : Presenter D → Option D
  ok_response p = elim p.state [
    | some State.ok ↦ elim p.response [ some (dto d) ↦ some d | _ ↦ none ]
    | _ ↦ none
  ]

  unfoldable pub respond : ℕ → (D → Body) → Presenter D → Result Reply
  unfolding raise_for_presenter_400_state
  respond status body p = elim (ok_response p) [
    | some d ↦ ok (json status (body d))
    | none ↦ err (raise_for p)
  ]
