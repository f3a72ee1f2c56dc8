-- ===== src/Messaging/Outbound.antt =====
-- The adapters of src/dizzchat/contexts/messaging/infrastructure/outbound that stand between the
-- sockets and the database: one unit of work for each call.
use dizzchat.Prelude.{ℕ, Bool, Option, List, ◌++◌}
use dizzchat.Text.{Text, codes}
use dizzchat.Storage.Session.{Action, lift, transaction}
use dizzchat.Storage.Rows.{Database}
use dizzchat.Storage.Conversations.{sqlalchemy_conversation_repository}
use dizzchat.Storage.Messages.{sqlalchemy_message_repository}
use dizzchat.Messaging.Conversation.{ConversationId, Time}
use dizzchat.Messaging.Message.{Message, SenderId, ClientMessageId, MessageId, message_content}
use dizzchat.Messaging.Ports.{ConversationAccess, MessageReplayer}
use dizzchat.Messaging.Services.EnsureConversationAccess
use dizzchat.Messaging.Services.PostMessage
use dizzchat.Messaging.Services.ReplayMessages

-- `MockAssistantResponder.reply_to`
unfoldable pub reply_to : {S : Type 0} → Text → Action S Text
reply_to prompt = lift (message_content (codes "You said: " ++ prompt))

-- `SessionScopedMessageWriter.from_user`, at the time `now`.
unfoldable pub write_from_user :
    ConversationId
    → SenderId
    → Text
    → Option ClientMessageId
    → Time
    → Action Database (Message × Bool)
write_from_user conversation_id sender_id content client_message_id now = transaction (
    PostMessage.from_user sqlalchemy_conversation_repository sqlalchemy_message_repository
      conversation_id sender_id content client_message_id now)

-- `SessionScopedMessageWriter.from_assistant`
unfoldable pub write_from_assistant : ConversationId → Text → Time → Action Database Message
write_from_assistant conversation_id content now = transaction (
    PostMessage.from_assistant sqlalchemy_conversation_repository sqlalchemy_message_repository
      conversation_id content now)

-- `SessionScopedMessageReplayer.replay_since`, with a bound on the rounds of its loop.
unfoldable pub replay_since :
    ℕ → ConversationId → Option MessageId → Action Database (Option (List Message))
replay_since rounds conversation_id after =
    ReplayMessages.execute sqlalchemy_message_repository rounds conversation_id after

-- `SessionScopedMessageReplayer`
abbrev pub session_scoped_message_replayer : ℕ → MessageReplayer Database
session_scoped_message_replayer rounds = record { replay_since = replay_since rounds }

-- `SessionScopedConversationAccess`
abbrev pub session_scoped_conversation_access : ConversationAccess Database
session_scoped_conversation_access = record {
  ensure = EnsureConversationAccess.execute sqlalchemy_conversation_repository;
}
