-- ===== src/Storage/Messages.antt =====
-- src/dizzchat/contexts/messaging/infrastructure/outbound/persistence/repositories/
-- sqlalchemy_message_repository.py, over the table of messages.
pub mod Log
pub mod Writes
pub mod Outcomes
use dizzchat.Prelude.{
  ℕ, suc, Bool, true, false, ◌&&◌, ◌||◌, not, Option, none, some, List, ◌∷◌, ◌==◌, if◌then◌else◌,
  ltb, any, filter, find?, take, beyond, sort_asc, sort_desc, ok, err, ◌>>=◌, traverse,
  traverse_option,
}
use dizzchat.Text.{Text}
use dizzchat.Errors.{Attempt, integrity_error}
use dizzchat.Messaging.Conversation.{Uuid, Time, ConversationId}
use dizzchat.Messaging.Message.{
  Message, MessageId, MessageRole, SenderId, ClientMessageId, role_value, message_role,
  message_content,
}
use dizzchat.Messaging.Ports.{MessageRepository}
use dizzchat.Storage.Rows.{MessageRow, ConversationRow, Database}
use dizzchat.Storage.Session.{Action, query}

-- `_to_domain(model)`
unfoldable pub to_domain : MessageRow → Attempt Message
to_domain model = do
  role ← message_role model.role
  content ← message_content model.content
  ok (record {
    id = model.id;
    conversation_id = model.conversation_id;
    sender_id = model.sender_id;
    role = role;
    content = content;
    created_at = model.created_at;
    client_message_id = model.client_message_id;
  })

abbrev pub holds : Uuid → Option Uuid → Bool
holds key none = false
holds key (some k) = k == key

-- Whether a row is under this conversation's client id.
abbrev pub under_key : ConversationId → ClientMessageId → MessageRow → Bool
under_key c key row = row.conversation_id == c && holds key row.client_message_id

-- The unique constraint: NULLs are distinct.
abbrev pub key_taken : ConversationId → Option ClientMessageId → List MessageRow → Bool
key_taken c none rows = false
key_taken c (some key) rows = any (under_key c key) rows

-- The foreign key to the conversations.
abbrev pub conversation_exists : ConversationId → Database → Bool
conversation_exists c db = any (λ (row : ConversationRow). row.id == c) db.conversations

-- The insert and the flush, which takes the next number of the sequence also where it is refused.
unfoldable pub create :
    ConversationId
    → Option SenderId
    → MessageRole
    → Text
    → Time
    → Option ClientMessageId
    → Action Database Message
unfolding to_domain
create conversation_id sender_id role content created_at client_message_id db =
    let model : MessageRow = record {
      id = db.next_message_id;
      conversation_id = conversation_id;
      sender_id = sender_id;
      role = role_value role;
      content = content;
      created_at = created_at;
      client_message_id = client_message_id;
    } in
    let numbered = record db { next_message_id = suc db.next_message_id } in
    if not (conversation_exists conversation_id db)
      || key_taken conversation_id client_message_id db.messages
    then (err integrity_error, numbered)
    else (to_domain model, record numbered { messages = model ∷ db.messages })

unfoldable pub read_keyed : ConversationId → ClientMessageId → Database → Attempt (Option Message)
unfolding to_domain
read_keyed conversation_id client_message_id db =
    traverse_option to_domain (find? (under_key conversation_id client_message_id) db.messages)

unfoldable pub find_by_client_message_id :
    ConversationId → ClientMessageId → Action Database (Option Message)
find_by_client_message_id conversation_id client_message_id =
    query (read_keyed conversation_id client_message_id)

-- `WHERE conversation_id = ?`
abbrev pub of_conversation : ConversationId → List MessageRow → List MessageRow
of_conversation c rows = filter (λ row. row.conversation_id == c) rows

unfoldable pub list_history : ConversationId → Option MessageId → ℕ → Action Database (List Message)
unfolding to_domain
list_history conversation_id before limit = query λ db.
    let stmt =
      beyond (λ b (row : MessageRow). ltb row.id b) before
        (of_conversation conversation_id db.messages) in
    traverse to_domain (take limit (sort_desc (λ row. row.id) stmt))

unfoldable pub list_since : ConversationId → Option MessageId → ℕ → Action Database (List Message)
unfolding to_domain
list_since conversation_id after limit = query λ db.
    let stmt =
      beyond (λ a (row : MessageRow). ltb a row.id) after
        (of_conversation conversation_id db.messages) in
    traverse to_domain (take limit (sort_asc (λ row. row.id) stmt))

abbrev pub sqlalchemy_message_repository : MessageRepository Database
sqlalchemy_message_repository = record {
  create = create;
  find_by_client_message_id = find_by_client_message_id;
  list_history = list_history;
  list_since = list_since;
}
