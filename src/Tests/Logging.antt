-- ===== src/Tests/Logging.antt =====
-- A log line at concrete inputs: an extra field is shown under its own name, also where the line has
-- one of that name, and an attribute of every record is not.
use dizzchat.Prelude.{◌≡◌, refl, none, some, [], ◌∷◌}
use dizzchat.Text.{Text, codes, text_eq}
use dizzchat.Logging.{LogRecord, get_key, format, is_reserved}

abbrev line : LogRecord Text
line = record {
  created = 0;
  levelname = codes "INFO";
  name = codes "app";
  message = codes "served";
  attributes =
      (codes "msg", codes "served") ∷ (codes "level", codes "3") ∷ (codes "user", codes "ann") ∷ [];
  exc_info = none;
}

level_is_extra :
    get_key (codes "level") (format (λ t. t) (λ t. []) (some (codes "c1")) line) ≡ some (codes "3")
unfolding format is_reserved text_eq
level_is_extra = refl

msg_is_hidden : get_key (codes "msg") (format (λ t. t) (λ t. []) (some (codes "c1")) line) ≡ none
unfolding format is_reserved text_eq
msg_is_hidden = refl

connection_is_shown :
    get_key (codes "connection_id") (format (λ t. t) (λ t. []) (some (codes "c1")) line)
    ≡ some (codes "c1")
unfolding format is_reserved text_eq
connection_is_shown = refl
