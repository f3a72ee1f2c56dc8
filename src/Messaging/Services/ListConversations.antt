-- ===== src/Messaging/Services/ListConversations.antt =====
-- src/dizzchat/contexts/messaging/application/services/list_conversations.py
use dizzchat.Prelude.{List}
use dizzchat.Storage.Session.{Action}
use dizzchat.Messaging.Conversation.{Conversation, ParticipantId}
use dizzchat.Messaging.Ports.{ConversationRepository}

module _ {S : Type 0} (conversations : ConversationRepository S) where
  unfoldable pub execute : ParticipantId → Action S (List Conversation)
  execute participant_id = conversations.list_for_participant participant_id
