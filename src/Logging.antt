-- ===== src/Logging.antt =====
-- app/config/logging.py: what a record is made of, and which handler writes it. The rendering by
-- `json.dumps` is left out.
pub mod Handlers
use fast_api_ddd_template.Base.{
  ℕ, Bool, true, false, ◌&&◌, Option, none, some, List, [], ◌∷◌, ◌++◌, String, ltb, leb, str_eq,
  exists, where_, map, if◌then◌else◌,
}
use fast_api_ddd_template.Base.Text.{lower}

-- A value of a dictionary: a scalar by its text, a list, or a dictionary. Nothing inside is masked.
mutual
  pub data Value : Type 0 where
    scalar : String → Value
    sequence : Items → Value
    mapping : Entries → Value

  pub data Items : Type 0 where
    no_items : Items
    item : Value → Items → Items

  pub data Entries : Type 0 where
    no_entries : Entries
    entry : String → Value → Entries → Entries

-- A message: a dictionary, or a text.
pub data Message : Type 0 where
  fields : List (String × Value) → Message
  text : String → Message

pub record LogRecord : Type 0 where
  pub level : ℕ
  pub level_name : String
  pub name : String
  pub time : String
  pub msg : Message
  pub exc_info : Option String

-- `SENSITIVE_KEYS`
unfoldable pub sensitive_keys : List String
sensitive_keys = "username" ∷ "password" ∷ "token" ∷ "secret_key" ∷ "email" ∷ []

unfoldable pub is_sensitive : String → Bool
unfolding sensitive_keys lower
is_sensitive key = exists (str_eq (lower key)) sensitive_keys

unfoldable pub mask : Message → Message
unfolding is_sensitive
mask (fields kvs) =
    fields (map (λ (k, v). (k, if is_sensitive k then scalar "[FILTERED]" else v)) kvs)
mask (text s) = text s

-- The dictionary `data` of `JsonFormatter.format`.
pub record Formatted : Type 0 where
  pub timestamp : String
  pub level : String
  pub logger : String
  pub message : Message
  pub trace : Option String

-- `JsonFormatter.format`, up to `json.dumps`.
unfoldable pub format : LogRecord → Formatted
unfolding mask
format r = record {
  timestamp = r.time;
  level = r.level_name;
  logger = r.name;
  message = mask r.msg;
  trace = r.exc_info;
}

pub record LevelFilter : Type 0 where
  pub min_level : Option ℕ
  pub max_level : Option ℕ

abbrev above : Option ℕ → ℕ → Bool
above none level = true
above (some n) level = leb n level

abbrev below : Option ℕ → ℕ → Bool
below none level = true
below (some n) level = leb level n

-- `LevelFilter.filter`
unfoldable pub filter : LevelFilter → ℕ → Bool
filter f level = if above f.min_level level then below f.max_level level else false

-- The streams that the handlers of a logger write to.
pub data Stream : Type 0 where
  stdout stderr : Stream

pub record Handler : Type 0 where
  pub stream : Stream
  pub level : ℕ
  pub level_filter : LevelFilter

pub record Logger : Type 0 where
  pub level : ℕ
  pub propagate : Bool
  pub handlers : List Handler

abbrev pub is_on : Stream → Handler → Bool
is_on stdout h = elim h.stream [ stdout ↦ true | stderr ↦ false ]
is_on stderr h = elim h.stream [ stdout ↦ false | stderr ↦ true ]

-- `logging.DEBUG`, `logging.INFO`, `logging.WARNING`
abbrev pub debug_level : ℕ
debug_level = 10

abbrev pub info_level : ℕ
info_level = 20

abbrev pub warning_level : ℕ
warning_level = 30

-- `if not any(...): logger.addHandler(...)`
abbrev pub add_handler : Handler → List Handler → List Handler
add_handler h hs = if exists (is_on h.stream) hs then hs else hs ++ h ∷ []

abbrev pub out_handler : Handler
out_handler = record {
  stream = stdout;
  level = debug_level;
  level_filter = record { min_level = none; max_level = some info_level };
}

abbrev pub err_handler : Handler
err_handler = record {
  stream = stderr;
  level = warning_level;
  level_filter = record { min_level = some warning_level; max_level = none };
}

-- `get_logger`, of DEBUG, on the logger of the name.
unfoldable pub get_logger : Bool → Logger → Logger
get_logger debug logger = record {
  level = if debug then debug_level else info_level;
  propagate = false;
  handlers = add_handler err_handler (add_handler out_handler logger.handlers);
}

-- The handlers of a logger that write a record of a level.
unfoldable pub writers : Logger → ℕ → List Handler
unfolding filter
writers logger level =
    if ltb level logger.level
    then []
    else where_ (λ (h : Handler). leb h.level level && filter h.level_filter level) logger.handlers
