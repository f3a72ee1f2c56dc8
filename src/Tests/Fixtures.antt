-- ===== src/Tests/Fixtures.antt =====
-- A conversation of two users with two messages, the second under a client id.
use dizzchat.Prelude.{◌≡◌, refl, none, some, [], ◌∷◌, ok, arith}
use dizzchat.Text.{Text, codes, strip}
use dizzchat.Messaging.Conversation.{Conversation, conversation_title}
use dizzchat.Messaging.Message.{Message, user, message_content}
use dizzchat.Storage.Rows.{Database, empty_database}
use dizzchat.Storage.Conversations.{read_active}
use dizzchat.Storage.Messages.Log.{Holds, to_row}

abbrev pub hello : Text
hello = codes "hello"

abbrev pub first : Message
first = record {
  id = 1;
  conversation_id = 7;
  sender_id = some 1;
  role = user;
  content = hello;
  created_at = 100;
  client_message_id = none;
}

abbrev pub second : Message
second = record {
  id = 4;
  conversation_id = 7;
  sender_id = some 2;
  role = user;
  content = hello;
  created_at = 110;
  client_message_id = some 55;
}

abbrev pub team : Conversation
team = record {
  id = 7;
  owner_id = 1;
  title = codes "team";
  created_at = 90;
  updated_at = 90;
  deleted_at = none;
  participant_ids = 1 ∷ 2 ∷ [];
}

abbrev pub store : Database
store = record empty_database {
  conversations =
      record {
        id = 7;
        owner_id = 1;
        title = codes "team";
        created_at = 90;
        updated_at = 90;
        deleted_at = none;
      }
      ∷ [];
  participants =
      record { conversation_id = 7; user_id = 1; joined_at = 90 }
      ∷ record { conversation_id = 7; user_id = 2; joined_at = 95 }
      ∷ [];
  messages = to_row second ∷ to_row first ∷ [];
  next_message_id = 5;
}

pub store-Holds : Holds store (second ∷ first ∷ [])
unfolding message_content strip
store-Holds = record {
  rows = refl;
  storable = (refl, (refl, tt));
  in_order = ((refl, tt), (tt, tt));
  numbered = omega arith;
  keys_unique = (refl, (refl, tt));
}

pub store-team : read_active 7 store ≡ ok (some team)
unfolding read_active conversation_title strip
store-team = refl

pub hello_is_content : message_content hello ≡ ok hello
unfolding message_content strip
hello_is_content = refl
