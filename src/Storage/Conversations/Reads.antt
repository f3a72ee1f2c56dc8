-- ===== src/Storage/Conversations/Reads.antt =====
-- What a read of a conversation tells of the tables, and on which tables it rests.
use dizzchat.Prelude.{
  ◌≡◌, ap, true, some, List, [], ◌∷◌, arith, any, find?, ok, traverse_option, inl, inr,
  Option-cases, Result-cases, Option, none, refl, ◌>>=◌,
}
use dizzchat.Messaging.Conversation.{Conversation, ConversationId, conversation_title}
use dizzchat.Storage.Rows.{ConversationRow, ParticipantRow, Database}
use dizzchat.Storage.Conversations.{to_domain, is_row, is_active_row, read_active, read_any}

pub any_of_find :
    (c : ConversationId) (rows : List ConversationRow) (row : ConversationRow)
    → find? (is_active_row c) rows ≡ some row
    → any (is_row c) rows ≡ true
any_of_find c [] row h = cc
any_of_find c (r ∷ rows) row h = ground (arith, any_of_find c rows row)

-- A conversation that is read is there.
pub get-exists :
    (c : ConversationId) (db : Database) {conversation : Conversation}
    → read_active c db ≡ ok (some conversation)
    → any (is_row c) db.conversations ≡ true
unfolding read_active
get-exists c db h = elim (Option-cases (find? (is_active_row c) db.conversations)) [
  | inl e ↦ absurd (cc (ap (traverse_option (to_domain db.participants)) e))
  | inr (row, e) ↦ any_of_find c db.conversations row e
]

-- The row that a conversation was read from.
pub to_domain-row :
    (ps : List ParticipantRow) (row : ConversationRow) (conversation : Conversation)
    → to_domain ps row ≡ ok conversation
    → (conversation_title row.title ≡ ok conversation.title)
      × (conversation.id ≡ row.id)
      × (conversation.owner_id ≡ row.owner_id)
unfolding to_domain
to_domain-row ps row conversation h = ground arith

read_row :
    (ps : List ParticipantRow) (found : Option ConversationRow) (conversation : Conversation)
    → traverse_option (to_domain ps) found ≡ ok (some conversation)
    → (row : ConversationRow) × (found ≡ some row) × (to_domain ps row ≡ ok conversation)
read_row ps none conversation h = absurd (cc h)
read_row ps (some row) conversation h = (
  row,
  refl,
  elim (Result-cases (to_domain ps row)) [
    | inl (x, bad) ↦ absurd (cc (h, ap (λ r. r >>= λ y. ok (some y)) bad))
    | inr (k, good) ↦ ground (arith, good)
  ],
)

pub read_active-row :
    (c : ConversationId) (db : Database) (conversation : Conversation)
    → read_active c db ≡ ok (some conversation)
    → (row : ConversationRow) × (find? (is_active_row c) db.conversations ≡ some row)
      × (to_domain db.participants row ≡ ok conversation)
unfolding read_active
read_active-row c db conversation h =
    read_row db.participants (find? (is_active_row c) db.conversations) conversation h

pub read_any-row :
    (c : ConversationId) (db : Database) (conversation : Conversation)
    → read_any c db ≡ ok (some conversation)
    → (row : ConversationRow) × (find? (is_row c) db.conversations ≡ some row)
      × (to_domain db.participants row ≡ ok conversation)
unfolding read_any
read_any-row c db conversation h =
    read_row db.participants (find? (is_row c) db.conversations) conversation h
