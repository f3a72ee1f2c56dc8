-- ===== src/Messaging/Services/MessageExchange.antt =====
-- src/dizzchat/contexts/messaging/application/services/message_exchange.py
pub mod Durable
pub mod Acknowledged
pub mod Delivery
use dizzchat.Prelude.{Bool, true, false, Option}
use dizzchat.Text.{Text}
use dizzchat.Storage.Session.{Action, ◌>>=◌, ◌>>◌, pure}
use dizzchat.Messaging.Conversation.{ConversationId}
use dizzchat.Messaging.Message.{Message, SenderId, ClientMessageId}
use dizzchat.Messaging.Ports.{MessageWriter, AssistantResponder, MessageBroadcaster}

module _ {S : Type 0} (writer : MessageWriter S) (responder : AssistantResponder S)
    (broadcaster : MessageBroadcaster S) where
  -- What follows the write of a message that is new.
  pub announce : ConversationId → Text → Message → Action S Message
  announce conversation_id content user_message = do
    broadcaster.broadcast conversation_id user_message
    reply ← responder.reply_to content
    assistant_message ← writer.from_assistant conversation_id reply
    broadcaster.broadcast conversation_id assistant_message
    pure user_message

  unfoldable pub exchange :
      ConversationId → SenderId → Text → Option ClientMessageId → Action S Message
  unfolding announce
  exchange conversation_id sender_id content client_message_id = do
    (user_message, created) ← writer.from_user conversation_id sender_id content client_message_id
    elim created [
      | false ↦ pure user_message
      | true ↦ announce conversation_id content user_message
    ]
