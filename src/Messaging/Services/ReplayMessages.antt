-- ===== src/Messaging/Services/ReplayMessages.antt =====
-- src/dizzchat/contexts/messaging/application/services/replay_messages.py
pub mod Complete
use dizzchat.Prelude.{
  ℕ, zero, suc, ◌≡◌, Bool, true, false, Option, none, some, List, [], ◌++◌, ltb, length, get_last?,
}
use dizzchat.Storage.Session.{Action, ◌>>=◌, pure}
use dizzchat.Messaging.Conversation.{ConversationId}
use dizzchat.Messaging.Message.{Message, MessageId}
use dizzchat.Messaging.Ports.{MessageRepository}

abbrev pub replay_page_size : ℕ
replay_page_size = 500

module _ {S : Type 0} (messages : MessageRepository S) where
  -- The `while True` loop, with a bound on its rounds: `none` means that the bound was met.
  pub read_pages :
      ℕ → ℕ → ConversationId → Option MessageId → List Message → Action S (Option (List Message))
  read_pages page_size zero conversation_id cursor collected = pure none
  read_pages page_size (suc rounds) conversation_id cursor collected = do
    page ← messages.list_since conversation_id cursor page_size
    elim (get_last? page) [
      | none ↦ pure (some collected)
      | some last ↦ elim (ltb (length page) page_size) [
        | true ↦ pure (some (collected ++ page))
        | false ↦ read_pages page_size rounds conversation_id (some last.id) (collected ++ page)
      ]
    ]

  unfoldable pub execute : ℕ → ConversationId → Option MessageId → Action S (Option (List Message))
  unfolding read_pages
  execute rounds conversation_id after = read_pages replay_page_size rounds conversation_id after []
