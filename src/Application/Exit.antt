-- ===== src/Application/Exit.antt =====
-- How the body of a unit of work in a use case ends: by `return`, with the presenter as it then
-- is, or by falling through with the user.
use fast_api_ddd_template.Domain.User.{User}

pub data Exit (P : Type 0) : Type 0 where
  returned : P → Exit P
  continued : User → Exit P
