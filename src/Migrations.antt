-- ===== src/Migrations.antt =====
-- The schema's migrations: src/migrations/versions. A revision's tables are their rows; what a column
-- may hold is its type, and the columns that a revision adds are fields of a row of its own.
pub mod Steps
pub mod Upgraded
pub mod Replicas
use dizzchat.Prelude.{
  ℕ, Bool, true, false, not, Option, none, some, List, [], ◌∷◌, map, any, ok, err, ◌>>=◌, traverse,
  if◌then◌else◌, require,
}
use dizzchat.Text.{Text, codes}
use dizzchat.Errors.{Attempt, integrity_error}
use dizzchat.Messaging.Conversation.{Uuid, Time}
use dizzchat.Storage.Rows.{
  UserRow, RefreshTokenRow, ConversationRow, ParticipantRow, MessageRow, Database,
}
use dizzchat.Storage.Conversations.{is_member_row}

-- A message before it had a role, when each had a sender.
pub record SentMessage : Type 0 where
  pub id : ℕ
  pub conversation_id : Uuid
  pub sender_id : Uuid
  pub content : Text
  pub created_at : Time

-- A message before it had the client's id.
pub record RoleMessage : Type 0 where
  pub id : ℕ
  pub conversation_id : Uuid
  pub sender_id : Option Uuid
  pub role : Text
  pub content : Text
  pub created_at : Time

-- The tables before there were memberships, with messages of one of the three kinds.
pub record Tables (M : Type 0) : Type 0 where
  pub users : List UserRow
  pub refresh_tokens : List RefreshTokenRow
  pub conversations : List ConversationRow
  pub messages : List M
  pub next_message_id : ℕ

-- The database at each revision.
pub data Schema : Type 0 where
  at_base : Schema
  at_identity : List UserRow → List RefreshTokenRow → Schema
  at_conversations : Tables SentMessage → Schema
  at_message_role : Tables RoleMessage → Schema
  at_client_message_id : Tables MessageRow → Schema
  at_conversation_participants : Database → Schema

module _ {M N : Type 0} where
  -- The tables with other messages.
  abbrev pub with_messages : List N → Tables M → Tables N
  with_messages messages t = record {
    users = t.users;
    refresh_tokens = t.refresh_tokens;
    conversations = t.conversations;
    messages = messages;
    next_message_id = t.next_message_id;
  }

-- `upgrade()` and `downgrade()` of 0001_create_identity_tables.py
abbrev pub create_identity_tables : Schema
create_identity_tables = at_identity [] []

-- Of 0002_create_conversations_tables.py
abbrev pub create_conversations_tables : List UserRow → List RefreshTokenRow → Tables SentMessage
create_conversations_tables users refresh_tokens = record {
  users = users;
  refresh_tokens = refresh_tokens;
  conversations = [];
  messages = [];
  next_message_id = 1;
}

-- Of 0003_add_message_role.py. The column of the senders cannot be made NOT NULL again where an
-- assistant's message is.
abbrev pub add_role : SentMessage → RoleMessage
add_role m = record {
  id = m.id;
  conversation_id = m.conversation_id;
  sender_id = some m.sender_id;
  role = codes "user";
  content = m.content;
  created_at = m.created_at;
}

abbrev pub drop_role : RoleMessage → Attempt SentMessage
drop_role m = do
  sender_id ← require m.sender_id integrity_error
  ok (record {
    id = m.id;
    conversation_id = m.conversation_id;
    sender_id = sender_id;
    content = m.content;
    created_at = m.created_at;
  })

unfoldable pub add_message_role : Tables SentMessage → Tables RoleMessage
add_message_role t = with_messages (map add_role t.messages) t

unfoldable pub drop_message_role : Tables RoleMessage → Attempt (Tables SentMessage)
drop_message_role t = do messages ← traverse drop_role t.messages; ok (with_messages messages t)

-- Of 0004_add_client_message_id.py. The constraint holds of rows whose new column is NULL.
abbrev pub add_key : RoleMessage → MessageRow
add_key m = record {
  id = m.id;
  conversation_id = m.conversation_id;
  sender_id = m.sender_id;
  role = m.role;
  content = m.content;
  created_at = m.created_at;
  client_message_id = none;
}

abbrev pub drop_key : MessageRow → RoleMessage
drop_key m = record {
  id = m.id;
  conversation_id = m.conversation_id;
  sender_id = m.sender_id;
  role = m.role;
  content = m.content;
  created_at = m.created_at;
}

unfoldable pub add_client_message_id : Tables RoleMessage → Tables MessageRow
add_client_message_id t = with_messages (map add_key t.messages) t

unfoldable pub drop_client_message_id : Tables MessageRow → Tables RoleMessage
drop_client_message_id t = with_messages (map drop_key t.messages) t

-- Of 0005_add_conversation_participants.py: the backfill, which the composite key can refuse.
abbrev pub owner_row : ConversationRow → ParticipantRow
owner_row row = record {
  conversation_id = row.id;
  user_id = row.owner_id;
  joined_at = row.created_at;
}

unfoldable pub backfilled : List ConversationRow → Attempt (List ParticipantRow)
backfilled [] = ok []
backfilled (row ∷ rows) = do
  rest ← backfilled rows
  if any (is_member_row row.id row.owner_id) rest
      then err integrity_error
      else ok (owner_row row ∷ rest)

unfoldable pub add_conversation_participants : Tables MessageRow → Attempt Database
unfolding backfilled
add_conversation_participants t = do
  participants ← backfilled t.conversations
  ok (record {
    users = t.users;
    refresh_tokens = t.refresh_tokens;
    conversations = t.conversations;
    participants = participants;
    messages = t.messages;
    next_message_id = t.next_message_id;
  })

unfoldable pub drop_conversation_participants : Database → Tables MessageRow
drop_conversation_participants db = record {
  users = db.users;
  refresh_tokens = db.refresh_tokens;
  conversations = db.conversations;
  messages = db.messages;
  next_message_id = db.next_message_id;
}
