-- ===== src/Logging/Handlers.antt =====
-- Which handlers of a logger write a record.
use fast_api_ddd_template.Base.{
  exists-append, ℕ, zero, suc, ◌≡◌, refl, arith, ap, ◌∙◌, Bool, true, List, [], ◌∷◌, ◌++◌, exists,
  ltb, leb, if◌then◌else◌,
}
use fast_api_ddd_template.Logging.{
  Logger, Handler, is_on, stdout, stderr, add_handler, out_handler, err_handler, get_logger,
  writers,
}

still_on :
    (p : Handler → Bool) (h : Handler) (hs : List Handler)
    → exists p hs ≡ true
    → exists p (hs ++ h ∷ []) ≡ true
still_on p h [] e = cc
still_on p h (x ∷ xs) e = ground (arith, still_on p h xs)

-- A logger has both handlers once, whatever it had, and asking for it again adds none.
pub get_logger-get_logger :
    (debug : Bool) (logger : Logger)
    → get_logger debug (get_logger debug logger) ≡ get_logger debug logger
unfolding get_logger
get_logger-get_logger debug logger =
    let hs = logger.handlers in
    let outs = add_handler out_handler hs in
    ground (
      arith,
      exists-append (is_on stdout) hs out_handler refl,
      exists-append (is_on stderr) outs err_handler refl,
      still_on (is_on stdout) err_handler outs,
    )

-- A logger that nothing has set up, as `logging.getLogger` makes it.
abbrev pub new_logger : Logger
new_logger = record { level = 0; propagate = true; handlers = [] }

-- The logger after a number of calls of `get_logger`.
unfoldable pub calls : ℕ → Bool → Logger → Logger
calls zero debug logger = logger
calls (suc n) debug logger = get_logger debug (calls n debug logger)

-- From the second call on nothing changes.
calls-get_logger :
    (n : ℕ) (debug : Bool) (logger : Logger) → calls (suc n) debug logger ≡ get_logger debug logger
unfolding calls
calls-get_logger zero debug logger = refl
calls-get_logger (suc n) debug logger =
    ap (get_logger debug) (calls-get_logger n debug logger) ∙ get_logger-get_logger debug logger

writers-get_logger :
    (debug : Bool) (level : ℕ)
    → writers (get_logger debug new_logger) level ≡ (
        if ltb level (if debug then 10 else 20)
        then []
        else if leb level 20
        then out_handler ∷ []
        else if leb 30 level
        then err_handler ∷ []
        else [])
unfolding get_logger writers
writers-get_logger debug level = ground arith

-- However often a new logger is asked for, at least once, a record is written by no handler if its
-- level is below DEBUG where the settings say debug, and below INFO where not. From there on it is
-- written once: to stdout up to INFO, to stderr from WARNING on; between the two, by no handler.
pub writers-calls :
    (n : ℕ) (debug : Bool) (level : ℕ)
    → writers (calls (suc n) debug new_logger) level ≡ (
        if ltb level (if debug then 10 else 20)
        then []
        else if leb level 20
        then out_handler ∷ []
        else if leb 30 level
        then err_handler ∷ []
        else [])
writers-calls n debug level =
    ap (λ l. writers l level) (calls-get_logger n debug new_logger) ∙ writers-get_logger debug level
