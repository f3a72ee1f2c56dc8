-- ===== src/Storage/Rows.antt =====
-- One record for each model class, with its columns, and the tables together.
use dizzchat.Prelude.{ℕ, Option, List, []}
use dizzchat.Text.{Text}
use dizzchat.Messaging.Conversation.{Uuid, Time}

pub record ConversationRow : Type 0 where
  pub id : Uuid
  pub owner_id : Uuid
  pub title : Text
  pub created_at : Time
  pub updated_at : Time
  pub deleted_at : Option Time

pub record ParticipantRow : Type 0 where
  pub conversation_id : Uuid
  pub user_id : Uuid
  pub joined_at : Time

pub record MessageRow : Type 0 where
  pub id : ℕ
  pub conversation_id : Uuid
  pub sender_id : Option Uuid
  pub role : Text
  pub content : Text
  pub created_at : Time
  pub client_message_id : Option Uuid

pub record UserRow : Type 0 where
  pub id : Uuid
  pub email : Text
  pub password_hash : Text
  pub created_at : Time

pub record RefreshTokenRow : Type 0 where
  pub jti : Text
  pub user_id : Uuid
  pub token_hash : Text
  pub expires_at : Time
  pub revoked_at : Option Time

-- `next_message_id` is the sequence behind the autoincrementing key of the messages.
pub record Database : Type 0 where
  pub users : List UserRow
  pub refresh_tokens : List RefreshTokenRow
  pub conversations : List ConversationRow
  pub participants : List ParticipantRow
  pub messages : List MessageRow
  pub next_message_id : ℕ

abbrev pub empty_database : Database
empty_database = record {
  users = [];
  refresh_tokens = [];
  conversations = [];
  participants = [];
  messages = [];
  next_message_id = 1;
}
