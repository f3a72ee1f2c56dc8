-- ===== src/Messaging/Services/ListParticipants.antt =====
-- src/dizzchat/contexts/messaging/application/services/list_participants.py
use dizzchat.Prelude.{List, require}
use dizzchat.Errors.{conversation_error, conversation_not_found}
use dizzchat.Storage.Session.{Action, ◌>>=◌, ◌>>◌, lift}
use dizzchat.Messaging.Conversation.{ConversationId, ParticipantId, Participant, ensure_participant}
use dizzchat.Messaging.Ports.{ConversationRepository}

module _ {S : Type 0} (conversations : ConversationRepository S) where
  unfoldable pub execute : ConversationId → ParticipantId → Action S (List Participant)
  execute conversation_id participant_id = do
    found ← conversations.get conversation_id
    conversation ←
        lift (require found (conversation_error (conversation_not_found conversation_id)))
    lift (ensure_participant participant_id conversation)
    conversations.list_participants conversation_id
