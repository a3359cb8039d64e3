-- ===== src/Application/State.antt =====
-- app/application/ports/presenters.py: `State`.
pub data State : Type 0 where
  ok bad_request domain_error unauthorized forbidden conflict not_found : State
