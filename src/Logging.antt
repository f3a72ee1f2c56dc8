-- ===== src/Logging.antt =====
-- src/dizzchat/logging.py: the payload of a log line, as a dict in the order of its keys, and the root
-- logger. A value is one of JSON's, or what `str` makes of it, and an argument here with the values
-- that stand for texts; `json.dumps` of the payload is the standard library's.
pub mod Fields
use dizzchat.Prelude.{Bool, Option, none, some, List, [], ◌∷◌, any, if◌then◌else◌, is_some}
use dizzchat.Text.{Text, codes, text_eq}
use dizzchat.Messaging.Conversation.{Time}

-- A dict whose keys are texts.
module _ {ℓ} {V : Type ℓ} where
  abbrev pub get_key : Text → List (Text × V) → Option V
  get_key key [] = none
  get_key key ((k, v) ∷ d) = if text_eq k key then some v else get_key key d

  -- `d[key] = value`
  abbrev pub put_key : Text → V → List (Text × V) → List (Text × V)
  put_key key value [] = (key, value) ∷ []
  put_key key value ((k, v) ∷ d) =
      if text_eq k key then (k, value) ∷ d else (k, v) ∷ put_key key value d

  -- `d.setdefault(key, value)`
  abbrev pub set_default : Text → V → List (Text × V) → List (Text × V)
  set_default key value d = if is_some (get_key key d) then d else put_key key value d

-- The attributes of every record, and the three that are added.
abbrev pub reserved_names : List Text
reserved_names =
    codes "name"
    ∷ codes "msg"
    ∷ codes "args"
    ∷ codes "levelname"
    ∷ codes "levelno"
    ∷ codes "pathname"
    ∷ codes "filename"
    ∷ codes "module"
    ∷ codes "exc_info"
    ∷ codes "exc_text"
    ∷ codes "stack_info"
    ∷ codes "lineno"
    ∷ codes "funcName"
    ∷ codes "created"
    ∷ codes "msecs"
    ∷ codes "relativeCreated"
    ∷ codes "thread"
    ∷ codes "threadName"
    ∷ codes "processName"
    ∷ codes "process"
    ∷ codes "message"
    ∷ codes "asctime"
    ∷ codes "taskName"
    ∷ []

unfoldable pub is_reserved : Text → Bool
unfolding text_eq
is_reserved key = any (λ name. text_eq name key) reserved_names

-- A log record: what the formatter reads of it, all attributes included, with the formatted exception
-- if there is one.
pub record LogRecord (V : Type 0) : Type 0 where
  pub created : Time
  pub levelname : Text
  pub name : Text
  pub message : Text
  pub attributes : List (Text × V)
  pub exc_info : Option Text

-- `for key, value in record.__dict__.items()`
unfoldable pub merge_extra : {V : Type 0} → List (Text × V) → List (Text × V) → List (Text × V)
merge_extra [] payload = payload
merge_extra ((key, value) ∷ attributes) payload =
    merge_extra attributes (if is_reserved key then payload else put_key key value payload)

module _ {V : Type 0} (text : Text → V) (isoformat : Time → Text) where
  abbrev pub base_payload : LogRecord V → List (Text × V)
  base_payload r =
      (codes "timestamp", text (isoformat r.created))
      ∷ (codes "level", text r.levelname)
      ∷ (codes "logger", text r.name)
      ∷ (codes "message", text r.message)
      ∷ []

  abbrev pub with_connection : Option Text → List (Text × V) → List (Text × V)
  with_connection none payload = payload
  with_connection (some id) payload = set_default (codes "connection_id") (text id) payload

  abbrev pub with_exception : Option Text → List (Text × V) → List (Text × V)
  with_exception none payload = payload
  with_exception (some exception) payload = put_key (codes "exc_info") (text exception) payload

  -- `JsonFormatter.format`, for the connection's id in the context.
  unfoldable pub format : Option Text → LogRecord V → List (Text × V)
  unfolding merge_extra
  format connection_id r =
      with_exception r.exc_info
        (with_connection connection_id (merge_extra r.attributes (base_payload r)))

-- The root logger, by its handlers and its level.
pub record RootLogger (H : Type 0) : Type 0 where
  pub handlers : List H
  pub level : Text

-- `configure_logging`, with the handler that it makes.
abbrev pub configure_logging : {H : Type 0} → (Text → Text) → H → Text → RootLogger H → RootLogger H
configure_logging upper handler level root = record { handlers = handler ∷ []; level = upper level }
