-- ===== src/Drf/Framework.antt =====
-- What app/interface/drf takes from Django and from Django REST framework.
use fast_api_ddd_template.Base.{ℕ, Bool, Option, none, some, String}
use fast_api_ddd_template.Domain.Errors.{Error, Result, ok, err}
use fast_api_ddd_template.World.{Action}
use fast_api_ddd_template.Http.Message.{Request, Reply}

-- The arguments of a `serializers.CharField`. A field that is not required has the default None.
pub record CharField : Type 0 where
  pub min_length : Option ℕ
  pub max_length : Option ℕ
  pub required : Bool
  pub allow_null : Bool

-- What the body of a request has for a field.
pub data Input : Type 0 where
  absent null : Input
  value : String → Input

pub record Framework : Type 0 where
  -- The validated value of a field, or the `ValidationError` that `is_valid` raises.
  pub run_validation : CharField → Input → Result (Option String)
  -- `APIView.handle_exception`: the response for an exception, if it is one that it handles.
  pub handle_exception : Error → Option Reply
  -- What `convert_exception_to_response` makes of an exception of the view.
  pub convert_exception : Error → Reply

abbrev pub View : Type 0
View = Request → Action Reply

module _ (f : Framework) where
  -- `APIView.dispatch`
  unfoldable pub dispatch : View → View
  dispatch view request w =
      let (r, w') = view request w in
      elim r [
        | ok reply ↦ (ok reply, w')
        | err e ↦ elim (f.handle_exception e) [ some reply ↦ (ok reply, w') | none ↦ (err e, w') ]
      ]

  unfoldable pub convert_exception_to_response : View → View
  convert_exception_to_response view request w =
      let (r, w') = view request w in
      elim r [ ok reply ↦ (ok reply, w') | err e ↦ (ok (f.convert_exception e), w') ]
