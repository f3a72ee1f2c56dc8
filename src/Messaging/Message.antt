-- ===== src/Messaging/Message.antt =====
-- The message aggregate: src/dizzchat/contexts/messaging/domain/message.
use dizzchat.Prelude.{ℕ, Bool, Option, ◌==◌, if◌then◌else◌, is_empty, ok, err}
use dizzchat.Text.{Text, strip, codes, text_eq}
use dizzchat.Errors.{Attempt, message_error, invalid_message_content, value_error}
use dizzchat.Messaging.Conversation.{Uuid, Time, ConversationId}

pub data MessageRole : Type 0 where
  user assistant : MessageRole

-- The member's value, `auto()` of a `StrEnum`: its name in lower case.
abbrev pub role_value : MessageRole → Text
role_value user = codes "user"
role_value assistant = codes "assistant"

-- `MessageRole(value)`
unfoldable pub message_role : Text → Attempt MessageRole
unfolding text_eq
message_role value =
    if text_eq value (role_value user)
    then ok user
    else if text_eq value (role_value assistant)
    then ok assistant
    else err value_error

-- The number that the database gave to the message.
abbrev pub MessageId : Type 0
MessageId = ℕ

abbrev pub SenderId : Type 0
SenderId = Uuid

abbrev pub ClientMessageId : Type 0
ClientMessageId = Uuid

-- `MessageContent(value)`: the text as it is, if something is left of it when it is stripped.
unfoldable pub message_content : Text → Attempt Text
message_content value =
    if is_empty (strip value) then err (message_error invalid_message_content) else ok value

pub record Message : Type 0 where
  pub id : MessageId
  pub conversation_id : ConversationId
  pub sender_id : Option SenderId
  pub role : MessageRole
  pub content : Text
  pub created_at : Time
  pub client_message_id : Option ClientMessageId

-- `__eq__`: entities are equal by identity.
unfoldable pub same_message : Message → Message → Bool
same_message m n = n.id == m.id
