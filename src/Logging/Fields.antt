-- ===== src/Logging/Fields.antt =====
-- What a log line shows under each key.
use dizzchat.Prelude.{
  ◌≡◌, refl, ap, ◌∙◌, true, Option, none, some, List, [], ◌∷◌, arith, if◌then◌else◌, Bool-cases,
  Option-cases, inl, inr,
}
use dizzchat.Text.{Text, codes, text_eq, text_eq_iff}
use dizzchat.Messaging.Conversation.{Time}
use dizzchat.Logging.{
  get_key, put_key, set_default, is_reserved, LogRecord, base_payload, merge_extra, with_connection,
  with_exception, format,
}

get_key-put_key :
    {V : Type 0} (k j : Text) (v : V) (d : List (Text × V))
    → get_key j (put_key k v d) ≡ (if text_eq k j then some v else get_key j d)
get_key-put_key k j v [] = refl
get_key-put_key k j v ((i, w) ∷ d) =
    ground (arith, text_eq_iff k j, text_eq_iff i k, text_eq_iff i j, get_key-put_key k j v d)

reserved_same : (k j : Text) → text_eq k j ≡ true → is_reserved k ≡ is_reserved j
reserved_same k j e = ap (λ (t : Text). is_reserved t) ((text_eq_iff k j).0 e)

-- The last of the attributes under a key, which is the only one in a dict.
abbrev pub get_extra : {V : Type 0} → Text → List (Text × V) → Option V
get_extra key [] = none
get_extra key ((k, v) ∷ d) = elim (get_extra key d) [
  | some w ↦ some w
  | none ↦ if text_eq k key then some v else none
]

abbrev pub or_else : {V : Type 0} → Option V → Option V → Option V
or_else none other = other
or_else (some v) other = some v

abbrev pub shown_text : {V : Type 0} → (Text → V) → Option Text → Option V
shown_text text none = none
shown_text text (some t) = some (text t)

get_same :
    {V : Type 0} (k j : Text) (d : List (Text × V)) → text_eq k j ≡ true → get_key k d ≡ get_key j d
get_same k j d e = ap (λ (t : Text). get_key t d) ((text_eq_iff k j).0 e)

or_else-none : {V : Type 0} (o : Option V) → or_else o none ≡ o
or_else-none none = refl
or_else-none (some v) = refl

get_key-set_default :
    {V : Type 0} (k j : Text) (v : V) (d : List (Text × V))
    → get_key j (set_default k v d) ≡ or_else (get_key j d) (if text_eq k j then some v else none)
get_key-set_default k j v d = elim (Option-cases (get_key k d)) [
  | inl missing ↦ rw missing (ground (arith, get_key-put_key k j v d, get_same k j d))
  | inr (w, there) ↦ rw there (ground (arith, get_same k j d))
]

get_key-merge_extra :
    {V : Type 0} (key : Text) (attributes payload : List (Text × V))
    → get_key key (merge_extra attributes payload) ≡ (
        if is_reserved key
        then get_key key payload
        else or_else (get_extra key attributes) (get_key key payload))
unfolding merge_extra
get_key-merge_extra key [] payload = ground arith
get_key-merge_extra key ((k, v) ∷ attributes) payload = elim (Bool-cases (is_reserved k)) [
  | inl hidden ↦
      rw hidden (ground (arith, reserved_same k key, get_key-merge_extra key attributes payload))
  | inr shown ↦ rw shown (
      ground (
        arith,
        reserved_same k key,
        get_key-put_key k key v payload,
        get_key-merge_extra key attributes (put_key k v payload),
      ))
]

module _ {V : Type 0} (text : Text → V) (isoformat : Time → Text) where
  get_key-with_exception :
      (key : Text) (exception : Option Text) (payload : List (Text × V))
      → get_key key (with_exception text isoformat exception payload)
        ≡ or_else
            (if text_eq (codes "exc_info") key then shown_text text exception else none)
            (get_key key payload)
  get_key-with_exception key none payload = ground arith
  get_key-with_exception key (some exception) payload =
      ground (arith, get_key-put_key (codes "exc_info") key (text exception) payload)

  get_key-with_connection :
      (key : Text) (id : Option Text) (payload : List (Text × V))
      → get_key key (with_connection text isoformat id payload)
        ≡ or_else
            (get_key key payload)
            (if text_eq (codes "connection_id") key then shown_text text id else none)
  get_key-with_connection key none payload = ground (arith, or_else-none (get_key key payload))
  get_key-with_connection key (some id) payload =
      get_key-set_default (codes "connection_id") key (text id) payload

  -- What a log line shows under a key: the formatted exception under `exc_info`, if there is one, and
  -- no other attribute that every record has; else the attribute of that name; else what the line
  -- starts with, and the connection's id under `connection_id` where neither says otherwise.
  pub get_key-format :
      (connection_id : Option Text) (r : LogRecord V) (key : Text)
      → get_key key (format text isoformat connection_id r)
        ≡ or_else (if text_eq (codes "exc_info") key then shown_text text r.exc_info else none) (
            or_else
              (if is_reserved key
                then get_key key (base_payload text isoformat r)
                else or_else
                    (get_extra key r.attributes)
                    (get_key key (base_payload text isoformat r)))
              (if text_eq (codes "connection_id") key then shown_text text connection_id else none))
  unfolding format
  get_key-format connection_id r key =
      let base = base_payload text isoformat r in
      let merged = merge_extra r.attributes base in
      get_key-with_exception key r.exc_info (with_connection text isoformat connection_id merged)
      ∙ ap (or_else (if text_eq (codes "exc_info") key then shown_text text r.exc_info else none)) (
          get_key-with_connection key connection_id merged
          ∙ ap
              (λ (o : Option V). or_else o (
                if text_eq (codes "connection_id") key
                then shown_text text connection_id
                else none))
              (get_key-merge_extra key r.attributes base))
