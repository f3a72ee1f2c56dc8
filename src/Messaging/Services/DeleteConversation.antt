-- ===== src/Messaging/Services/DeleteConversation.antt =====
-- src/dizzchat/contexts/messaging/application/services/delete_conversation.py
use dizzchat.Prelude.{require}
use dizzchat.Errors.{conversation_error, conversation_not_found}
use dizzchat.Storage.Session.{Action, ◌>>=◌, ◌>>◌, lift}
use dizzchat.Messaging.Conversation
use dizzchat.Messaging.Conversation.{
  Uuid, Conversation, ConversationId, OwnerId, ParticipantId, Participant, Time, conversation_title,
  ensure_owned_by, ensure_participant,
}
use dizzchat.Messaging.Ports.{ConversationRepository}

module _ {S : Type 0} (conversations : ConversationRepository S) where
  unfoldable pub execute : ConversationId → OwnerId → Time → Action S (Unit {0})
  execute conversation_id owner_id now = do
    found ← conversations.get conversation_id
    conversation ←
        lift (require found (conversation_error (conversation_not_found conversation_id)))
    lift (ensure_owned_by owner_id conversation)
    let deleted = Conversation.delete now conversation
    conversations.update deleted.id deleted.title deleted.updated_at deleted.deleted_at
