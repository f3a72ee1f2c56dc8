-- ===== src/Messaging/Services/RestoreConversation.antt =====
-- src/dizzchat/contexts/messaging/application/services/restore_conversation.py
use dizzchat.Prelude.{require}
use dizzchat.Errors.{conversation_error, conversation_not_found}
use dizzchat.Storage.Session.{Action, ◌>>=◌, ◌>>◌, pure, lift}
use dizzchat.Messaging.Conversation
use dizzchat.Messaging.Conversation.{
  Uuid, Conversation, ConversationId, OwnerId, ParticipantId, Participant, Time, conversation_title,
  ensure_owned_by, ensure_participant,
}
use dizzchat.Messaging.Ports.{ConversationRepository}

module _ {S : Type 0} (conversations : ConversationRepository S) where
  unfoldable pub execute : ConversationId → OwnerId → Time → Action S Conversation
  execute conversation_id owner_id now = do
    found ← conversations.get_including_deleted conversation_id
    conversation ←
        lift (require found (conversation_error (conversation_not_found conversation_id)))
    lift (ensure_owned_by owner_id conversation)
    let restored = Conversation.restore now conversation
    conversations.update restored.id restored.title restored.updated_at restored.deleted_at
    pure restored
