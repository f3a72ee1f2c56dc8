-- ===== src/Migrations/Upgraded.antt =====
-- What an upgrade to the latest revision makes of the tables of any earlier one.
use dizzchat.Prelude.{ℕ, zero, suc, ◌≡◌, refl, false, List, [], ◌∷◌, map, any, All, ok, arith}
use dizzchat.Messaging.Conversation.{Uuid, ConversationId}
use dizzchat.Storage.Rows.{ConversationRow, MessageRow, Database}
use dizzchat.Storage.Conversations.{is_row, is_member_row}
use dizzchat.Storage.Conversations.Consistency.{
  IsConsistent, IdsUnique, MembersUnique, OwnerIn, Linked, TitleValid, All-map_of,
}
use dizzchat.Migrations.{
  Schema, at_base, at_identity, at_conversations, at_message_role, at_client_message_id,
  at_conversation_participants, Tables, owner_row, backfilled, add_conversation_participants,
  add_message_role, add_client_message_id, create_conversations_tables,
}
use dizzchat.Migrations.Steps.{upgrade, upgrade_by, upgrade_head}

-- No membership of a conversation that is not among the rows.
not_member :
    (c : ConversationId) (u : Uuid) (rows : List ConversationRow)
    → any (is_row c) rows ≡ false
    → any (is_member_row c u) (map owner_row rows) ≡ false
not_member c u [] h = refl
not_member c u (row ∷ rows) h = ground (arith, not_member c u rows)

backfilled_lem :
    (rows : List ConversationRow) → IdsUnique rows → backfilled rows ≡ ok (map owner_row rows)
unfolding backfilled
backfilled_lem [] h = refl
backfilled_lem (row ∷ rows) (alone, h) =
    rw (backfilled_lem rows h) (rw (not_member row.id row.owner_id rows alone) refl)

members-MembersUnique :
    (rows : List ConversationRow) → IdsUnique rows → MembersUnique (map owner_row rows)
members-MembersUnique [] h = tt
members-MembersUnique (row ∷ rows) (alone, h) =
    (not_member row.id row.owner_id rows alone, members-MembersUnique rows h)

members-Linked : (rows : List ConversationRow) → All (Linked rows) (map owner_row rows)
members-Linked [] = tt
members-Linked (row ∷ rows) = (
  ground arith,
  All-map_of (Linked rows) (Linked (row ∷ rows)) (map owner_row rows) (λ p h. ground (arith, h))
      (members-Linked rows),
)

members-OwnerIn : (rows : List ConversationRow) → All (OwnerIn (map owner_row rows)) rows
members-OwnerIn [] = tt
members-OwnerIn (row ∷ rows) = (
  ground arith,
  All-map_of (OwnerIn (map owner_row rows)) (OwnerIn (map owner_row (row ∷ rows))) rows
      (λ r h. ground (arith, h)) (members-OwnerIn rows),
)

-- The conversations at a revision, and what they keep to: unique keys and titles that can be read.
abbrev pub conversations_at : Schema → List ConversationRow
conversations_at at_base = []
conversations_at (at_identity users tokens) = []
conversations_at (at_conversations t) = t.conversations
conversations_at (at_message_role t) = t.conversations
conversations_at (at_client_message_id t) = t.conversations
conversations_at (at_conversation_participants db) = db.conversations

abbrev pub IsSound : Schema → Type 0
IsSound (at_conversation_participants db) = IsConsistent db
IsSound s = IdsUnique (conversations_at s) × All TitleValid (conversations_at s)

add_participants_lem :
    (t : Tables MessageRow)
    → IdsUnique t.conversations
    → All TitleValid t.conversations
    → (db : Database) × (add_conversation_participants t ≡ ok db)
      × IsConsistent db
      × (db.conversations ≡ t.conversations)
unfolding add_conversation_participants
add_participants_lem t unique titles = (
  record {
    users = t.users;
    refresh_tokens = t.refresh_tokens;
    conversations = t.conversations;
    participants = map owner_row t.conversations;
    messages = t.messages;
    next_message_id = t.next_message_id;
  },
  rw (backfilled_lem t.conversations unique) refl,
  record {
    ids_unique = unique;
    members_unique = members-MembersUnique t.conversations unique;
    titles = titles;
    linked = members-Linked t.conversations;
    owners = members-OwnerIn t.conversations;
  },
  refl,
)

-- The last of the revisions, from wherever the upgrade began.
last_revision :
    (n : ℕ) (t : Tables MessageRow)
    → IdsUnique t.conversations × All TitleValid t.conversations
    → (db : Database) × (upgrade_by (suc n) (at_client_message_id t)
        ≡ ok (at_conversation_participants db))
      × IsConsistent db
      × (db.conversations ≡ t.conversations)
unfolding upgrade_by upgrade
last_revision n t (unique, titles) =
    let (db, added, consistent, same) = add_participants_lem t unique titles in
    (db, rw added (stays n db), consistent, same)
  where
    stays :
        (n : ℕ) (db : Database)
        → upgrade_by n (at_conversation_participants db) ≡ ok (at_conversation_participants db)
    stays zero db = refl
    stays (suc n) db = refl

-- From every revision, also that of the empty database, the upgrade to the latest one succeeds, where
-- conversations have unique keys and titles that can be read, and at the latest revision itself the
-- tables are consistent: it keeps every conversation, deleted ones included, and leaves consistent
-- tables, in which every conversation has its owner among its participants.
pub upgrade_head-IsConsistent :
    (s : Schema)
    → IsSound s
    → (db : Database) × (upgrade_head s ≡ ok (at_conversation_participants db))
      × IsConsistent db
      × (db.conversations ≡ conversations_at s)
unfolding upgrade_head upgrade add_message_role add_client_message_id
upgrade_head-IsConsistent (at_conversation_participants db) h = (db, refl, h, refl)
upgrade_head-IsConsistent at_base h =
    last_revision 0 (add_client_message_id (add_message_role (create_conversations_tables [] []))) h
upgrade_head-IsConsistent (at_identity users tokens) h =
    last_revision 1
      (add_client_message_id (add_message_role (create_conversations_tables users tokens))) h
upgrade_head-IsConsistent (at_conversations t) h =
    last_revision 2 (add_client_message_id (add_message_role t)) h
upgrade_head-IsConsistent (at_message_role t) h = last_revision 3 (add_client_message_id t) h
upgrade_head-IsConsistent (at_client_message_id t) h = last_revision 4 t h
