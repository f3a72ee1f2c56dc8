-- ===== src/Messaging/Services/RenameConversation.antt =====
-- src/dizzchat/contexts/messaging/application/services/rename_conversation.py
use dizzchat.Prelude.{require}
use dizzchat.Text.{Text}
use dizzchat.Errors.{conversation_error, conversation_not_found}
use dizzchat.Storage.Session.{Action, ◌>>=◌, ◌>>◌, pure, lift}
use dizzchat.Messaging.Conversation
use dizzchat.Messaging.Conversation.{
  Uuid, Conversation, ConversationId, OwnerId, ParticipantId, Participant, Time, conversation_title,
  ensure_owned_by, ensure_participant,
}
use dizzchat.Messaging.Ports.{ConversationRepository}

module _ {S : Type 0} (conversations : ConversationRepository S) where
  unfoldable pub execute : ConversationId → OwnerId → Text → Time → Action S Conversation
  execute conversation_id owner_id new_title now = do
    found ← conversations.get conversation_id
    conversation ←
        lift (require found (conversation_error (conversation_not_found conversation_id)))
    lift (ensure_owned_by owner_id conversation)
    title ← lift (conversation_title new_title)
    let renamed = Conversation.rename title now conversation
    conversations.update renamed.id renamed.title renamed.updated_at renamed.deleted_at
    pure renamed
