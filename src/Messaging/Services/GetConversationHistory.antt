-- ===== src/Messaging/Services/GetConversationHistory.antt =====
-- src/dizzchat/contexts/messaging/application/services/get_conversation_history.py
pub mod Pages
use dizzchat.Prelude.{
  ℕ, suc, Bool, Option, none, some, List, ltb, length, get_last?, take, if◌then◌else◌, require,
}
use mathlib.Core.Option
use dizzchat.Errors.{conversation_error, conversation_not_found}
use dizzchat.Storage.Session.{Action, ◌>>=◌, ◌>>◌, pure, lift}
use dizzchat.Messaging.Conversation.{ConversationId, ParticipantId, ensure_participant}
use dizzchat.Messaging.Message.{Message, MessageId}
use dizzchat.Messaging.Ports.{ConversationRepository, MessageRepository}

pub record MessagePage : Type 0 where
  pub items : List Message
  pub next_cursor : Option MessageId
  pub has_more : Bool

-- The page made of what was fetched, one message more than the page holds if there is one.
pub page_of : ℕ → List Message → MessagePage
page_of limit fetched =
    let has_more = ltb limit (length fetched) in
    let items = take limit fetched in
    record {
      items = items;
      next_cursor = if has_more then Option.map (λ (m : Message). m.id) (get_last? items) else none;
      has_more = has_more;
    }

module _ {S : Type 0} (conversations : ConversationRepository S)
    (messages : MessageRepository S) where
  unfoldable pub execute :
      ConversationId → ParticipantId → Option MessageId → ℕ → Action S MessagePage
  unfolding page_of
  execute conversation_id participant_id before limit = do
    found ← conversations.get conversation_id
    conversation ←
        lift (require found (conversation_error (conversation_not_found conversation_id)))
    lift (ensure_participant participant_id conversation)
    fetched ← messages.list_history conversation_id before (suc limit)
    pure (page_of limit fetched)
