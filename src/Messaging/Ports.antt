-- ===== src/Messaging/Ports.antt =====
-- The ports of src/dizzchat/contexts/messaging/domain/*/repository.py, over the state `S` of a
-- session, and what a message repository promises of the messages that it holds.
use dizzchat.Prelude.{ℕ, ◌≡◌, Bool, Option, List, ltb, beyond, take, Ordered, ok}
use mathlib.Core.List.{reverse}
use dizzchat.Text.{Text}
use dizzchat.Storage.Session.{Action}
use dizzchat.Messaging.Conversation.{
  Uuid, Conversation, ConversationId, OwnerId, ParticipantId, Participant, Time,
}
use dizzchat.Messaging.Message.{Message, MessageId, MessageRole, SenderId, ClientMessageId}

pub record ConversationRepository {ℓ} (S : Type ℓ) : Type ℓ where
  pub create :
      ConversationId → OwnerId → Text → Time → Time → List ParticipantId → Action S (Unit {0})
  pub update : ConversationId → Text → Time → Option Time → Action S (Unit {0})
  pub get : ConversationId → Action S (Option Conversation)
  pub get_including_deleted : ConversationId → Action S (Option Conversation)
  pub list_for_participant : ParticipantId → Action S (List Conversation)
  pub add_participant : ConversationId → ParticipantId → Time → Action S (Unit {0})
  pub remove_participant : ConversationId → ParticipantId → Action S (Unit {0})
  pub list_participants : ConversationId → Action S (List Participant)

pub record MessageRepository {ℓ} (S : Type ℓ) : Type ℓ where
  pub create :
      ConversationId
      → Option SenderId
      → MessageRole
      → Text
      → Time
      → Option ClientMessageId
      → Action S Message
  pub find_by_client_message_id : ConversationId → ClientMessageId → Action S (Option Message)
  pub list_history : ConversationId → Option MessageId → ℕ → Action S (List Message)
  pub list_since : ConversationId → Option MessageId → ℕ → Action S (List Message)

-- Whether a message is older, or newer, than a cursor.
abbrev pub before_cursor : ℕ → Message → Bool
before_cursor b m = ltb m.id b

abbrev pub after_cursor : ℕ → Message → Bool
after_cursor a m = ltb a m.id

-- The messages with an id below `before`, and those with an id above `after`.
abbrev pub older : Option MessageId → List Message → List Message
older before ms = beyond before_cursor before ms

abbrev pub newer : Option MessageId → List Message → List Message
newer after ms = beyond after_cursor after ms

abbrev pub NewestFirst : List Message → Type 0
NewestFirst = Ordered (λ m n. before_cursor m.id n)

abbrev pub OldestFirst : List Message → Type 0
OldestFirst = Ordered (λ m n. after_cursor m.id n)

-- In the state `s` the repository answers from `log`, each conversation's messages with the newest
-- first, and reading changes nothing.
pub record IsLog {ℓ} {S : Type ℓ} (repo : MessageRepository S) (s : S)
    (log : ConversationId → List Message) : Type ℓ where
  pub newest_comes_first : (c : ConversationId) → NewestFirst (log c)
  pub list_history_lem :
      (c : ConversationId) (before : Option MessageId) (n : ℕ)
      → repo.list_history c before n s ≡ (ok (take n (older before (log c))), s)
  pub list_since_lem :
      (c : ConversationId) (after : Option MessageId) (n : ℕ)
      → repo.list_since c after n s ≡ (ok (take n (newer after (reverse (log c)))), s)

-- The ports of src/dizzchat/contexts/messaging/application/ports.py. A text is a message's content.
pub record MessageWriter {ℓ} (S : Type ℓ) : Type ℓ where
  pub from_user :
      ConversationId → SenderId → Text → Option ClientMessageId → Action S (Message × Bool)
  pub from_assistant : ConversationId → Text → Action S Message

pub record AssistantResponder {ℓ} (S : Type ℓ) : Type ℓ where
  pub reply_to : Text → Action S Text

pub record MessageBroadcaster {ℓ} (S : Type ℓ) : Type ℓ where
  pub broadcast : ConversationId → Message → Action S (Unit {0})

pub record UserDirectory {ℓ} (S : Type ℓ) : Type ℓ where
  pub find_id_by_email : Text → Action S (Option Uuid)

-- Each call of these two is a read of its own.
pub record ConversationAccess {ℓ} (S : Type ℓ) : Type ℓ where
  pub ensure : ConversationId → ParticipantId → Action S (Unit {0})

-- `none` is a replay whose rounds ran out.
pub record MessageReplayer {ℓ} (S : Type ℓ) : Type ℓ where
  pub replay_since : ConversationId → Option MessageId → Action S (Option (List Message))
