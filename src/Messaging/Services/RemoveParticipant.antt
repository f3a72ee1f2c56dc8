-- ===== src/Messaging/Services/RemoveParticipant.antt =====
-- src/dizzchat/contexts/messaging/application/services/remove_participant.py
use dizzchat.Prelude.{◌||◌, ◌==◌, require, guard}
use dizzchat.Errors.{conversation_error, conversation_not_found, not_conversation_owner}
use dizzchat.Storage.Session.{Action, ◌>>=◌, ◌>>◌, lift}
use dizzchat.Messaging.Conversation
use dizzchat.Messaging.Conversation.{
  Uuid, Conversation, ConversationId, OwnerId, ParticipantId, Participant, Time, conversation_title,
  ensure_owned_by, ensure_participant,
}
use dizzchat.Messaging.Ports.{ConversationRepository}

module _ {S : Type 0} (conversations : ConversationRepository S) where
  unfoldable pub execute : ConversationId → ParticipantId → ParticipantId → Action S (Unit {0})
  execute conversation_id actor_id participant_id = do
    found ← conversations.get conversation_id
    conversation ←
        lift (require found (conversation_error (conversation_not_found conversation_id)))
    lift (
        guard (conversation.owner_id == actor_id || actor_id == participant_id)
          (conversation_error not_conversation_owner))
    lift (Conversation.remove_participant participant_id conversation)
    conversations.remove_participant conversation_id participant_id
