-- ===== src/Drf/Presenting.antt =====
-- app/interface/drf/utils.py, and the end of every view: the presenter as a response.
use fast_api_ddd_template.Base.{ℕ, Option, none, some, String}
use fast_api_ddd_template.Domain.Errors.{
  Error, Result, ok, err, value_error, api_exception, conflict_error, ApiException,
}
use fast_api_ddd_template.Application.State.{State}
use fast_api_ddd_template.Application.Presenter.{Presenter, dto, text}
use fast_api_ddd_template.Http.Message.{Body, Reply, json}
use fast_api_ddd_template.Http.Presenting.{ok_response, no_response}

-- The `match` of `raise_for_presenter_state`.
unfoldable pub raise_for_state : Option State → String → Error
raise_for_state (some State.bad_request) m = api_exception ApiException.parse_error m
raise_for_state (some State.unauthorized) m = api_exception ApiException.authentication_failed m
raise_for_state (some State.forbidden) m = api_exception ApiException.permission_denied m
raise_for_state (some State.conflict) m = conflict_error m
raise_for_state (some State.not_found) m = api_exception ApiException.not_found m
raise_for_state (some State.domain_error) m = api_exception ApiException.validation_error m
raise_for_state _ m = value_error "Wrong presenter state"

module _ {D : Type 0} where
  -- `raise_for_presenter_state`
  unfoldable pub raise_for_presenter_state : Presenter D → Error
  unfolding raise_for_state
  raise_for_presenter_state p = elim p.response [
    | none ↦ no_response
    | some (dto d) ↦ value_error "Wrong type for presenter response. str expected."
    | some (text m) ↦ raise_for_state p.state m
  ]

  -- A view of views/users.py, from where the presenter is filled.
  unfoldable pub respond : ℕ → (D → Body) → Presenter D → Result Reply
  unfolding raise_for_presenter_state
  respond status body p = elim (ok_response p) [
    | some d ↦ ok (json status (body d))
    | none ↦ err (raise_for_presenter_state p)
  ]

  -- The end of `LoginView.post`.
  abbrev pub raise_for : Presenter D → Error
  raise_for p = elim p.response [
    | none ↦ no_response
    | some (dto d) ↦ value_error "Wrong presenter response type"
    | some (text m) ↦ raise_for_presenter_state p
  ]
