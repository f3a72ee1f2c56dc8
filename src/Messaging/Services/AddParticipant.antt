-- ===== src/Messaging/Services/AddParticipant.antt =====
-- src/dizzchat/contexts/messaging/application/services/add_participant.py
use dizzchat.Prelude.{Bool, true, false, require}
use dizzchat.Text.{Text}
use dizzchat.Errors.{conversation_error, conversation_not_found, participant_user_not_found}
use dizzchat.Storage.Session.{Action, ◌>>=◌, ◌>>◌, pure, lift}
use dizzchat.Messaging.Conversation
use dizzchat.Messaging.Conversation.{
  Uuid, Conversation, ConversationId, OwnerId, ParticipantId, Participant, Time, conversation_title,
  ensure_owned_by, ensure_participant,
}
use dizzchat.Messaging.Ports.{ConversationRepository, UserDirectory}

module _ {S : Type 0} (conversations : ConversationRepository S) (users : UserDirectory S) where
  -- The write, if the membership is new.
  unfoldable pub record_membership :
      ConversationId → ParticipantId → Bool → Time → Action S (Unit {0})
  record_membership c p true now = conversations.add_participant c p now
  record_membership c p false now = pure tt

  unfoldable pub execute : ConversationId → OwnerId → Text → Time → Action S ParticipantId
  unfolding record_membership
  execute conversation_id owner_id email now = do
    found ← conversations.get conversation_id
    conversation ←
        lift (require found (conversation_error (conversation_not_found conversation_id)))
    lift (ensure_owned_by owner_id conversation)
    resolved ← users.find_id_by_email email
    user_id ← lift (require resolved (conversation_error (participant_user_not_found email)))
    record_membership conversation_id user_id (Conversation.add_participant user_id conversation).1
        now
    pure user_id
