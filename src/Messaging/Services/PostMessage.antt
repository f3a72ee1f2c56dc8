-- ===== src/Messaging/Services/PostMessage.antt =====
-- src/dizzchat/contexts/messaging/application/services/post_message.py
pub mod Idempotent
pub mod Outcomes
pub mod Answered
pub mod Logged
use dizzchat.Prelude.{Bool, true, false, Option, none, some, require}
use dizzchat.Text.{Text}
use dizzchat.Errors.{conversation_error, conversation_not_found}
use dizzchat.Storage.Session.{Action, ◌>>=◌, ◌>>◌, pure, lift}
use dizzchat.Messaging.Conversation.{ConversationId, Time, ensure_participant}
use dizzchat.Messaging.Message.{Message, SenderId, ClientMessageId, user, assistant}
use dizzchat.Messaging.Ports.{ConversationRepository, MessageRepository}

module _ {S : Type 0} (conversations : ConversationRepository S)
    (messages : MessageRepository S) where
  -- The message that is stored under the client's id already, if the client gave one.
  pub find_existing : ConversationId → Option ClientMessageId → Action S (Option Message)
  find_existing c none = pure none
  find_existing c (some key) = messages.find_by_client_message_id c key

  -- The message, and whether it is new.
  unfoldable pub from_user :
      ConversationId → SenderId → Text → Option ClientMessageId → Time → Action S (Message × Bool)
  unfolding find_existing
  from_user conversation_id sender_id content client_message_id now = do
    found ← conversations.get conversation_id
    conversation ←
        lift (require found (conversation_error (conversation_not_found conversation_id)))
    lift (ensure_participant sender_id conversation)
    existing ← find_existing conversation_id client_message_id
    elim existing [
      | some message ↦ pure (message, false)
      | none ↦ do
        message ←
            messages.create conversation_id (some sender_id) user content now client_message_id
        pure (message, true)
    ]

  unfoldable pub from_assistant : ConversationId → Text → Time → Action S Message
  from_assistant conversation_id content now =
      messages.create conversation_id none assistant content now none
