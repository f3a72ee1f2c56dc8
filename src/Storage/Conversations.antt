-- ===== src/Storage/Conversations.antt =====
-- src/dizzchat/contexts/messaging/infrastructure/outbound/persistence/repositories/
-- sqlalchemy_conversation_repository.py, over the tables of conversations and of participants.
pub mod Reads
pub mod Consistency
pub mod Updates
pub mod Readable
use mathlib.Core.List.{flat_map}
use dizzchat.Prelude.{
  ℕ, Bool, true, false, ◌&&◌, ◌||◌, not, Option, none, some, List, [], ◌∷◌, ◌++◌, map, ◌==◌,
  if◌then◌else◌, any, all, filter, find?, sort_asc, sort_desc, is_some, ok, err, Result, ◌>>=◌,
  traverse, traverse_option,
}
use dizzchat.Text.{Text}
use dizzchat.Errors.{Attempt, integrity_error}
use dizzchat.Messaging.Conversation.{
  Uuid, Time, Conversation, ConversationId, OwnerId, ParticipantId, Participant, conversation_title,
}
use dizzchat.Messaging.Ports.{ConversationRepository}
use dizzchat.Storage.Rows.{ConversationRow, ParticipantRow, Database}
use dizzchat.Storage.Session.{Action, query}

-- `model.participants`, the rows of the relationship.
abbrev pub participants_of : Uuid → List ParticipantRow → List ParticipantRow
participants_of c rows = filter (λ row. row.conversation_id == c) rows

-- `_to_domain(model)`
unfoldable pub to_domain : List ParticipantRow → ConversationRow → Attempt Conversation
to_domain participants model = do
  title ← conversation_title model.title
  ok (record {
    id = model.id;
    owner_id = model.owner_id;
    title = title;
    created_at = model.created_at;
    updated_at = model.updated_at;
    deleted_at = model.deleted_at;
    participant_ids =
        map (λ (row : ParticipantRow). row.user_id) (participants_of model.id participants);
  })

abbrev pub is_row : ConversationId → ConversationRow → Bool
is_row c row = row.id == c

abbrev pub is_member_row : ConversationId → ParticipantId → ParticipantRow → Bool
is_member_row c p row = row.conversation_id == c && row.user_id == p

-- The insert of a conversation with its participants. Its key must be new; the participants' keys
-- are then new too, if no user is listed twice.
unfoldable pub create :
    ConversationId → OwnerId → Text → Time → Time → List ParticipantId → Action Database (Unit {0})
create conversation_id owner_id title created_at updated_at participant_ids db =
    if any (is_row conversation_id) db.conversations then (err integrity_error, db) else (
      ok tt,
      record db {
        conversations =
            record {
              id = conversation_id;
              owner_id = owner_id;
              title = title;
              created_at = created_at;
              updated_at = updated_at;
              deleted_at = none;
            }
            ∷ db.conversations;
        participants =
            map
              (λ p. record {
                conversation_id = conversation_id;
                user_id = p;
                joined_at = created_at;
              })
              participant_ids
            ++ db.participants;
      },
    )

-- `UPDATE ... WHERE id = ?`
abbrev pub updated_row :
    ConversationId → Text → Time → Option Time → ConversationRow → ConversationRow
updated_row c title updated_at deleted_at row =
    if row.id == c
    then record row { title = title; updated_at = updated_at; deleted_at = deleted_at }
    else row

unfoldable pub update : ConversationId → Text → Time → Option Time → Action Database (Unit {0})
update conversation_id title updated_at deleted_at db = (
  ok tt,
  record db {
    conversations = map (updated_row conversation_id title updated_at deleted_at) db.conversations;
  },
)

-- Whether a row is the active conversation with this id.
abbrev pub is_active_row : ConversationId → ConversationRow → Bool
is_active_row c row = row.id == c && not (is_some row.deleted_at)

unfoldable pub read_active : ConversationId → Database → Attempt (Option Conversation)
unfolding to_domain
read_active conversation_id db =
    traverse_option (to_domain db.participants)
      (find? (is_active_row conversation_id) db.conversations)

unfoldable pub get : ConversationId → Action Database (Option Conversation)
get conversation_id = query (read_active conversation_id)

unfoldable pub read_any : ConversationId → Database → Attempt (Option Conversation)
unfolding to_domain
read_any conversation_id db =
    traverse_option (to_domain db.participants) (find? (is_row conversation_id) db.conversations)

unfoldable pub get_including_deleted : ConversationId → Action Database (Option Conversation)
get_including_deleted conversation_id = query (read_any conversation_id)

-- The join: a conversation stands once for each of the user's memberships of it.
abbrev pub joined : ParticipantId → Database → List ConversationRow
joined p db =
    flat_map
      (λ (row : ConversationRow).
        if is_some row.deleted_at
        then []
        else map (λ _. row) (filter (is_member_row row.id p) db.participants))
      db.conversations

unfoldable pub list_for_participant : ParticipantId → Action Database (List Conversation)
unfolding to_domain
list_for_participant participant_id = query λ db.
    traverse (to_domain db.participants)
      (sort_desc (λ (row : ConversationRow). row.created_at) (joined participant_id db))

-- The insert of a membership: the composite key must be new, and the conversation must exist.
unfoldable pub add_participant : ConversationId → ParticipantId → Time → Action Database (Unit {0})
add_participant conversation_id participant_id joined_at db =
    if any (is_member_row conversation_id participant_id) db.participants
      || not (any (is_row conversation_id) db.conversations)
    then (err integrity_error, db)
    else (
      ok tt,
      record db {
        participants =
            record {
              conversation_id = conversation_id;
              user_id = participant_id;
              joined_at = joined_at;
            }
            ∷ db.participants;
      },
    )

unfoldable pub remove_participant : ConversationId → ParticipantId → Action Database (Unit {0})
remove_participant conversation_id participant_id db = (
  ok tt,
  record db {
    participants =
        filter (λ row. not (is_member_row conversation_id participant_id row)) db.participants;
  },
)

unfoldable pub list_participants : ConversationId → Action Database (List Participant)
list_participants conversation_id = query λ db. ok (
    map (λ (row : ParticipantRow). record { id = row.user_id; joined_at = row.joined_at })
      (sort_asc (λ (row : ParticipantRow). row.joined_at)
        (participants_of conversation_id db.participants)))

abbrev pub sqlalchemy_conversation_repository : ConversationRepository Database
sqlalchemy_conversation_repository = record {
  create = create;
  update = update;
  get = get;
  get_including_deleted = get_including_deleted;
  list_for_participant = list_for_participant;
  add_participant = add_participant;
  remove_participant = remove_participant;
  list_participants = list_participants;
}
