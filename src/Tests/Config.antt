-- ===== src/Tests/Config.antt =====
-- Examples of the settings, production with defaults, of a logger, and of a message.
use fast_api_ddd_template.Base.{
  ◌≡◌, ◌↔◌, refl, true, false, none, some, [], ◌∷◌, ltb, leb, if◌then◌else◌,
}
use fast_api_ddd_template.Domain.Errors.{ok}
use fast_api_ddd_template.Config.{Given, prod_config, pos, with_defaults, get_settings}
use fast_api_ddd_template.Logging.{
  Value, scalar, mapping, entry, no_entries, fields, mask, out_handler, err_handler, writers,
}
use fast_api_ddd_template.Logging.Handlers.{new_logger, calls, writers-calls}
use fast_api_ddd_template.Config.Checks.{IsSound, name_of, get_settings_iff}

abbrev given : Given
given = record {
  env = "prod";
  debug = false;
  jwt_secret = "jkl0.9s8";
  jwt_token_expiry = none;
  refresh_token_expiry = some (pos 90);
  cookie_secure = none;
}

get_settings_iff_example :
    (get_settings given ≡ ok (prod_config, with_defaults prod_config given)) ↔ (
      (given.env ≡ name_of prod_config)
      × (with_defaults prod_config given ≡ with_defaults prod_config given)
      × IsSound prod_config (with_defaults prod_config given))
get_settings_iff_example = get_settings_iff given prod_config (with_defaults prod_config given)

writers-calls_example : writers (calls 2 true new_logger) 30 ≡ (
    if ltb 30 (if true then 10 else 20)
    then []
    else if leb 30 20
    then out_handler ∷ []
    else if leb 30 30
    then err_handler ∷ []
    else [])
writers-calls_example = writers-calls 1 true 30

-- The key is compared in lower case; a dictionary within is left as it is.
abbrev nested : Value
nested = mapping (entry "password" (scalar "hunter22") no_entries)

masks :
    mask (fields (("Password", scalar "hunter22") ∷ ("event", nested) ∷ []))
    ≡ fields (("Password", scalar "[FILTERED]") ∷ ("event", nested) ∷ [])
unfolding mask
masks = refl
