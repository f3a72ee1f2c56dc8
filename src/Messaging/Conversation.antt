-- ===== src/Messaging/Conversation.antt =====
-- The conversation aggregate: src/dizzchat/contexts/messaging/domain/conversation. An identifier
-- wraps a UUID and is only compared, so it is the UUID's number; a time is a number of
-- microseconds. A method that changes `self` returns the changed conversation.
pub mod Title
pub mod Lifecycle
pub mod Membership
use dizzchat.Prelude.{
  ℕ, Bool, true, false, ◌||◌, not, Option, none, some, List, [], ◌∷◌, ltb, ◌==◌, if◌then◌else◌,
  is_empty, length, is_some, contains, with_element, without_element, Result, ok, err, ◌>>=◌, ◌>>◌,
  guard,
}
use dizzchat.Text.{Text, strip}
use dizzchat.Errors.{
  Attempt, conversation_error, invalid_conversation_title, not_conversation_owner,
  not_conversation_participant, cannot_remove_conversation_owner,
}

abbrev pub Uuid : Type 0
Uuid = ℕ

abbrev pub Time : Type 0
Time = ℕ

abbrev pub ConversationId : Type 0
ConversationId = Uuid

abbrev pub OwnerId : Type 0
OwnerId = Uuid

abbrev pub ParticipantId : Type 0
ParticipantId = Uuid

abbrev pub max_title_length : ℕ
max_title_length = 200

-- `ConversationTitle(value)`: the stripped text, or the error.
unfoldable pub conversation_title : Text → Attempt Text
conversation_title value =
    let normalized = strip value in
    if is_empty normalized || ltb max_title_length (length normalized)
    then err (conversation_error (invalid_conversation_title value))
    else ok normalized

pub record Conversation : Type 0 where
  pub id : ConversationId
  pub owner_id : OwnerId
  pub title : Text
  pub created_at : Time
  pub updated_at : Time
  pub deleted_at : Option Time
  pub participant_ids : List ParticipantId

pub record Participant : Type 0 where
  pub id : ParticipantId
  pub joined_at : Time

unfoldable pub start : ConversationId → OwnerId → Text → Time → Conversation
start conversation_id owner_id title created_at = record {
  id = conversation_id;
  owner_id = owner_id;
  title = title;
  created_at = created_at;
  updated_at = created_at;
  deleted_at = none;
  participant_ids = owner_id ∷ [];
}

unfoldable pub rename : Text → Time → Conversation → Conversation
rename new_title now c = record c { title = new_title; updated_at = now }

unfoldable pub delete : Time → Conversation → Conversation
delete now c =
    if is_some c.deleted_at then c else record c { deleted_at = some now; updated_at = now }

unfoldable pub restore : Time → Conversation → Conversation
restore now c = if is_some c.deleted_at then record c { deleted_at = none; updated_at = now } else c

unfoldable pub ensure_owned_by : OwnerId → Conversation → Attempt (Unit {0})
ensure_owned_by owner_id c =
    guard (c.owner_id == owner_id) (conversation_error not_conversation_owner)

unfoldable pub is_participant : ParticipantId → Conversation → Bool
is_participant participant_id c = contains participant_id c.participant_ids

unfoldable pub ensure_participant : ParticipantId → Conversation → Attempt (Unit {0})
unfolding is_participant
ensure_participant participant_id c =
    guard (is_participant participant_id c) (conversation_error not_conversation_participant)

-- The conversation after the call, and whether the membership is new.
unfoldable pub add_participant : ParticipantId → Conversation → Conversation × Bool
unfolding is_participant
add_participant participant_id c =
    if is_participant participant_id c
    then (c, false)
    else (record c { participant_ids = with_element participant_id c.participant_ids }, true)

unfoldable pub remove_participant : ParticipantId → Conversation → Attempt Conversation
unfolding is_participant
remove_participant participant_id c = do
  guard (not (participant_id == c.owner_id)) (conversation_error cannot_remove_conversation_owner)
  guard (is_participant participant_id c) (conversation_error not_conversation_participant)
  ok (record c { participant_ids = without_element participant_id c.participant_ids })

unfoldable pub is_deleted : Conversation → Bool
is_deleted c = is_some c.deleted_at

-- `__eq__`: entities are equal by identity.
unfoldable pub same_conversation : Conversation → Conversation → Bool
same_conversation c d = d.id == c.id
