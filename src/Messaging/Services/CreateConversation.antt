-- ===== src/Messaging/Services/CreateConversation.antt =====
-- src/dizzchat/contexts/messaging/application/services/create_conversation.py. `fresh` is the UUID
-- that `uuid4` makes.
use dizzchat.Text.{Text}
use dizzchat.Storage.Session.{Action, ◌>>=◌, ◌>>◌, pure, lift}
use dizzchat.Messaging.Conversation
use dizzchat.Messaging.Conversation.{
  Uuid, Conversation, ConversationId, OwnerId, ParticipantId, Participant, Time, conversation_title,
  ensure_owned_by, ensure_participant,
}
use dizzchat.Messaging.Ports.{ConversationRepository}

module _ {S : Type 0} (conversations : ConversationRepository S) where
  unfoldable pub execute : OwnerId → Text → Uuid → Time → Action S Conversation
  execute owner_id title fresh now = do
    checked ← lift (conversation_title title)
    let conversation = Conversation.start fresh owner_id checked now
    conversations.create conversation.id conversation.owner_id conversation.title
        conversation.created_at conversation.updated_at conversation.participant_ids
    pure conversation
