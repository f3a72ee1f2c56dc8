-- ===== src/Messaging/Services/Directory/Reads.antt =====
-- How the outcome of a use case fits a directory, and the blocks that begin with a read.
use dizzchat.Prelude.{
  ◌≡◌, refl, ap, subst, ◌∙◌, Bool, false, Option, none, some, List, any, find?, is_some, contains,
  if◌then◌else◌, Bool-cases, Option-cases, inl, inr, Result, ok, err, require,
}
use dizzchat.Text.{Text}
use dizzchat.Errors.{Attempt, Error, conversation_error, conversation_not_found}
use dizzchat.Storage.Rows.{ConversationRow, ParticipantRow, Database}
use dizzchat.Storage.Session.{Action, ◌>>=◌, lift, query}
use dizzchat.Storage.Conversations
use dizzchat.Storage.Conversations.{
  is_row, is_active_row, is_member_row, read_active, read_any, to_domain, updated_row, get,
  get_including_deleted, sqlalchemy_conversation_repository,
}
use dizzchat.Storage.Conversations.Consistency.{IsConsistent, TitleValid}
use dizzchat.Storage.Conversations.Readable.{user_ids, contains-user_ids, All-find}
use dizzchat.Messaging.Conversation.{Uuid, Time, Conversation, ConversationId}
use dizzchat.Messaging.Services.Directory.{
  Entry, Directory, with_entry, any_entry, active_entry, on_entry,
}
use dizzchat.Messaging.Services.Directory.View.{
  entry_of, view, same_directory, entry_at-updated, find-active, find-none, find-id,
}

-- How an outcome over the tables fits the answer of a directory.
abbrev pub Implements :
    {A : Type 0} → Attempt Directory → Database → Result Error A × Database → Type 0
Implements (ok d) db (ok a, db') = view db' ≡ d
Implements (err e) db (err e', db') = (e ≡ e') × (db' ≡ db)
Implements (ok d) db (err e, db') = ⊥
Implements (err e) db (ok a, db') = ⊥

-- The conversation that a row is read as.
abbrev pub conversation_of : List ParticipantRow → ConversationRow → Conversation
conversation_of ps row = record {
  id = row.id;
  owner_id = row.owner_id;
  title = row.title;
  created_at = row.created_at;
  updated_at = row.updated_at;
  deleted_at = row.deleted_at;
  participant_ids = user_ids row.id ps;
}

-- The entry of an active conversation's row.
abbrev pub active_of : ConversationRow → Entry
active_of row = record { owner = row.owner_id; title = row.title; is_deleted = false }

to_domain_lem :
    (ps : List ParticipantRow) (row : ConversationRow)
    → TitleValid row
    → to_domain ps row ≡ ok (conversation_of ps row)
unfolding to_domain
to_domain_lem ps row valid = rw (valid, to_domain) refl

module _ (db : Database) (h : IsConsistent db) where
  read_active_lem :
      (c : ConversationId) (row : ConversationRow)
      → find? (is_row c) db.conversations ≡ some row
      → read_active c db
        ≡ ok (if is_some row.deleted_at then none else some (conversation_of db.participants row))
  unfolding read_active
  read_active_lem c row found =
      let active = find-active c db.conversations row h.ids_unique found in
      let valid = All-find TitleValid c db.conversations row h.titles found in
      elim (Bool-cases (is_some row.deleted_at)) [
        | inl deleted ↦ rw (active, read_active) (rw deleted refl)
        | inr there ↦
            rw (active, read_active) (rw there (rw (to_domain_lem db.participants row valid) refl))
      ]

  read_none :
      (c : ConversationId) → find? (is_row c) db.conversations ≡ none → read_active c db ≡ ok none
  unfolding read_active
  read_none c missing = rw (find-none c db.conversations missing, read_active) refl

  -- A block that first reads an active conversation.
  pub Implements-active :
      {A : Type 0} (c : ConversationId) (k : Conversation → Action Database A)
      (K : Entry → Attempt Directory)
      → ((row : ConversationRow)
          → find? (is_row c) db.conversations ≡ some row
          → is_some row.deleted_at ≡ false
          → Implements (K (active_of row)) db (k (conversation_of db.participants row) db))
      → Implements (on_entry (active_entry c (view db)) K) db (
          (query (read_active c) >>= λ found.
          lift (require found (conversation_error (conversation_not_found c))) >>= k)
            db)
  Implements-active c k K goes_on = elim (Option-cases (find? (is_row c) db.conversations)) [
    | inl missing ↦ rw missing (rw (read_none c missing) (refl, refl))
    | inr (row, found) ↦
        let read = read_active_lem c row found in
        elim (Bool-cases (is_some row.deleted_at)) [
          | inl deleted ↦ rw found (rw read (rw deleted (refl, refl)))
          | inr there ↦ rw found (rw read (rw there (goes_on row found there)))
        ]
  ]

  read_any_lem :
      (c : ConversationId) (row : ConversationRow)
      → find? (is_row c) db.conversations ≡ some row
      → read_any c db ≡ ok (some (conversation_of db.participants row))
  unfolding read_any
  read_any_lem c row found =
      let valid = All-find TitleValid c db.conversations row h.titles found in
      rw (found, read_any) (rw (to_domain_lem db.participants row valid) refl)

  read_any-missing :
      (c : ConversationId) → find? (is_row c) db.conversations ≡ none → read_any c db ≡ ok none
  unfolding read_any
  read_any-missing c missing = rw (missing, read_any) refl

  -- A block that first reads a conversation, deleted or not.
  pub Implements-any :
      {A : Type 0} (c : ConversationId) (k : Conversation → Action Database A)
      (K : Entry → Attempt Directory)
      → ((row : ConversationRow)
          → find? (is_row c) db.conversations ≡ some row
          → Implements (K (entry_of row)) db (k (conversation_of db.participants row) db))
      → Implements (on_entry (any_entry c (view db)) K) db (
          (query (read_any c) >>= λ found.
          lift (require found (conversation_error (conversation_not_found c))) >>= k)
            db)
  Implements-any c k K goes_on = elim (Option-cases (find? (is_row c) db.conversations)) [
    | inl missing ↦ rw missing (rw (read_any-missing c missing) (refl, refl))
    | inr (row, found) ↦ rw found (rw (read_any_lem c row found) (goes_on row found))
  ]

  -- The update of a conversation's row.
  pub view-update :
      (c : ConversationId) (title : Text) (now : Time) (deleted : Option Time) (flag : Bool)
      (row : ConversationRow)
      → find? (is_row c) db.conversations ≡ some row
      → is_some deleted ≡ flag
      → view (Conversations.update row.id title now deleted db).1
        ≡ with_entry c (record { owner = row.owner_id; title = title; is_deleted = flag }) (view db)
  unfolding Conversations.update
  view-update c title now deleted flag row found is =
      subst
        (λ b.
          view (Conversations.update row.id title now deleted db).1
          ≡ with_entry c (record { owner = row.owner_id; title = title; is_deleted = b }) (view db))
        is
        (rw (find-id c db.conversations row found) (
          same_directory _ _
            (λ k. entry_at-updated c k title now deleted db.conversations row found) (λ k u. refl)))

  -- Who takes part in a conversation that was read.
  pub members :
      (c : ConversationId) (u : Uuid) (row : ConversationRow)
      → find? (is_row c) db.conversations ≡ some row
      → contains u (user_ids row.id db.participants) ≡ any (is_member_row c u) db.participants
  members c u row found =
      contains-user_ids row.id u db.participants
      ∙ ap (λ k. any (is_member_row k u) db.participants) (find-id c db.conversations row found)
