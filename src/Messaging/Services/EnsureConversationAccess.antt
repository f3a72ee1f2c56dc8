-- ===== src/Messaging/Services/EnsureConversationAccess.antt =====
-- src/dizzchat/contexts/messaging/application/services/ensure_conversation_access.py
pub mod Gate
use dizzchat.Prelude.{Option, require}
use dizzchat.Errors.{conversation_error, conversation_not_found}
use dizzchat.Storage.Session.{Action, ◌>>=◌, ◌>>◌, lift}
use dizzchat.Messaging.Conversation.{ConversationId, ParticipantId, ensure_participant}
use dizzchat.Messaging.Ports.{ConversationRepository}

module _ {S : Type 0} (conversations : ConversationRepository S) where
  unfoldable pub execute : ConversationId → ParticipantId → Action S (Unit {0})
  execute conversation_id participant_id = do
    found ← conversations.get conversation_id
    conversation ←
        lift (require found (conversation_error (conversation_not_found conversation_id)))
    lift (ensure_participant participant_id conversation)
