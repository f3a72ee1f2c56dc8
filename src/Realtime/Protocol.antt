-- ===== src/Realtime/Protocol.antt =====
-- .../inbound/api/realtime/protocol.py: the frames as JSON. How pydantic reads a value as an `int` or
-- as a `UUID` is an argument; an object's keys are those of a Python dict, the first one found.
pub mod Layout
pub mod Misplaced
use dizzchat.Prelude.{ℕ, Bool, true, false, Option, none, some, List, [], ◌∷◌, if◌then◌else◌}
use mathlib.Core.Option
use dizzchat.Text.{Text, codes, text_eq}
use dizzchat.Messaging.Conversation.{Uuid}
use dizzchat.Messaging.Message.{Message, MessageId, ClientMessageId, role_value}
use dizzchat.Realtime.MessageCodec.{Formats}
use dizzchat.Realtime.Websocket.{
  Frame, auth_ok, message_new, message_ack, error, AuthPayload, SendMessagePayload,
}

-- `other_number` is a number that is negative or not whole, by its text.
mutual
  pub data Json : Type 0 where
    null : Json
    boolean : Bool → Json
    number : ℕ → Json
    other_number : Text → Json
    string : Text → Json
    array : Items → Json
    object : Fields → Json

  pub data Items : Type 0 where
    nil : Items
    cons : Json → Items → Items

  pub data Fields : Type 0 where
    end : Fields
    field : Text → Json → Fields → Fields

infixr 20 ◌=:◌
infixr 10 ◌&◌
abbrev pub ◌=:◌ : Text → Json → Fields
key =: value = field key value end

abbrev pub ◌&◌ : Fields → Fields → Fields
end & rest = rest
field key value fields & rest = field key value (fields & rest)

-- The outbound frames.
module _ {Bytes : Type 0} (formats : Formats Bytes) where
  -- `str(value) if value is not None else None`
  abbrev pub optional_uuid : Option Uuid → Json
  optional_uuid none = null
  optional_uuid (some id) = string (formats.uuid_str id)

  unfoldable pub message_payload : Message → Json
  message_payload message = object (
      codes "id" =: number message.id
      & codes "conversation_id" =: string (formats.uuid_str message.conversation_id)
      & codes "sender_id" =: optional_uuid message.sender_id
      & codes "role" =: string (role_value message.role)
      & codes "content" =: string message.content
      & codes "created_at" =: string (formats.isoformat message.created_at)
      & codes "client_message_id" =: optional_uuid message.client_message_id)

  -- The four builders, one for each frame.
  unfoldable pub to_json : Frame → Json
  unfolding message_payload
  to_json auth_ok = object (codes "type" =: string (codes "auth.ok"))
  to_json (message_new message) =
      object
        (codes "type" =: string (codes "message.new") & codes "payload" =: message_payload message)
  to_json (message_ack message) = object (
      codes "type" =: string (codes "message.ack")
      & codes "payload"
        =: object (
            codes "id" =: number message.id
            & codes "client_message_id" =: optional_uuid message.client_message_id
            & codes "created_at" =: string (formats.isoformat message.created_at)))
  to_json (error detail) =
      object (codes "type" =: string (codes "error") & codes "error" =: string detail)

-- The inbound frames, as `model_validate` reads them.
infixl 5 ◌>>=◌
abbrev ◌>>=◌ {ℓ κ} : {A : Type ℓ} {B : Type κ} → Option A → (A → Option B) → Option B
none >>= f = none
some a >>= f = f a

abbrev pub get_field : Text → Fields → Option Json
get_field key end = none
get_field key (field k value fields) = if text_eq k key then some value else get_field key fields

abbrev pub as_object : Json → Option Fields
as_object (object fields) = some fields
as_object _ = none

abbrev pub as_string : Json → Option Text
as_string (string text) = some text
as_string _ = none

-- `Literal[text]`
abbrev pub literal : Text → Json → Option (Unit {0})
literal text value = as_string value >>= λ found. if text_eq found text then some tt else none

-- `T | None = None`, for a field that may be missing.
abbrev pub optional {ℓ} : {A : Type ℓ} → (Json → Option A) → Option Json → Option (Option A)
optional parse none = some none
optional parse (some null) = some none
optional parse (some value) = Option.map some (parse value)

-- A frame of the type `name`, by the reader of its payload.
unfoldable pub frame_of {ℓ} : {A : Type ℓ} → Text → (Json → Option A) → Json → Option A
frame_of name payload raw = do
  fields ← as_object raw
  type_value ← get_field (codes "type") fields
  _ ← literal name type_value
  payload_value ← get_field (codes "payload") fields
  payload payload_value

-- Pydantic's reading of a value as an `int`, which is taken not to be negative, and as a `UUID`.
pub record Pydantic : Type 0 where
  pub int : Json → Option MessageId
  pub uuid : Json → Option ClientMessageId

module _ (pydantic : Pydantic) where
  -- `AuthPayload`
  unfoldable pub auth_payload : Json → Option AuthPayload
  auth_payload value = do
    fields ← as_object value
    token_value ← get_field (codes "token") fields
    token ← as_string token_value
    last_seen_seq ← optional pydantic.int (get_field (codes "last_seen_seq") fields)
    some (record { token = token; last_seen_seq = last_seen_seq })

  -- `SendMessagePayload`
  unfoldable pub send_message_payload : Json → Option SendMessagePayload
  send_message_payload value = do
    fields ← as_object value
    content_value ← get_field (codes "content") fields
    content ← as_string content_value
    client_message_id ← optional pydantic.uuid (get_field (codes "client_message_id") fields)
    some (record { content = content; client_message_id = client_message_id })

  -- `AuthFrame.model_validate(raw)`
  unfoldable pub validate_auth : Json → Option AuthPayload
  unfolding frame_of auth_payload
  validate_auth raw = frame_of (codes "auth") auth_payload raw

  -- `SendMessageFrame.model_validate(raw)`
  unfoldable pub validate_send : Json → Option SendMessagePayload
  unfolding frame_of send_message_payload
  validate_send raw = frame_of (codes "message.send") send_message_payload raw

-- What the loop has in `raw`: a payload that is no JSON is `None`, and so is JSON's `null`.
abbrev pub raw_of : Option Json → Option Json
raw_of (some null) = none
raw_of raw = raw
