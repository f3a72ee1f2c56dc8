-- ===== src/Storage/Conversations/Updates.antt =====
-- The updates and the deletions of the repository keep the tables consistent.
use dizzchat.Prelude.{
  ◌≡◌, refl, ◌∙◌, false, ◌&&◌, not, Option, List, [], ◌∷◌, map, arith, ◌==◌, any, filter, All,
  All-filter, ok, if◌then◌else◌, Bool-cases, inl, inr,
}
use dizzchat.Text.{Text}
use dizzchat.Messaging.Conversation.{Time, ConversationId, ParticipantId, conversation_title}
use dizzchat.Storage.Rows.{ConversationRow, ParticipantRow, Database}
use dizzchat.Storage.Conversations.{is_row, is_member_row, updated_row, update, remove_participant}
use dizzchat.Storage.Conversations.Consistency.{
  IdsUnique, MembersUnique, OwnerIn, Linked, TitleValid, IsConsistent, All-map_of,
}

-- An update keeps each row's key and owner.
any-updated :
    (k c : ConversationId) (title : Text) (at : Time) (dropped : Option Time)
    (rows : List ConversationRow)
    → any (is_row k) (map (updated_row c title at dropped) rows) ≡ any (is_row k) rows
any-updated k c title at dropped [] = refl
any-updated k c title at dropped (r ∷ rows) = ground (arith, any-updated k c title at dropped rows)

All-updated {ℓ} :
    (P Q : ConversationRow → Type ℓ) (f : ConversationRow → ConversationRow)
    (rows : List ConversationRow)
    → ((r : ConversationRow) → P r → Q (f r))
    → All P rows
    → All Q (map f rows)
All-updated P Q f [] keeps h = tt
All-updated P Q f (r ∷ rows) keeps h = (keeps r h.0, All-updated P Q f rows keeps h.1)

IdsUnique-updated :
    (c : ConversationId) (title : Text) (at : Time) (dropped : Option Time)
    (rows : List ConversationRow)
    → IdsUnique rows
    → IdsUnique (map (updated_row c title at dropped) rows)
IdsUnique-updated c title at dropped [] h = tt
IdsUnique-updated c title at dropped (r ∷ rows) h = (
  ground (arith, h.0, any-updated r.id c title at dropped rows),
  IdsUnique-updated c title at dropped rows h.1,
)

owner_same :
    (c : ConversationId) (title : Text) (at : Time) (dropped : Option Time)
    (ps : List ParticipantRow) (r : ConversationRow)
    → OwnerIn ps r
    → OwnerIn ps (updated_row c title at dropped r)
owner_same c title at dropped ps r h = elim (Bool-cases (r.id == c)) [
  | inl e ↦ rw e h
  | inr e ↦ rw e h
]

title_kept :
    (c : ConversationId) (title : Text) (at : Time) (dropped : Option Time)
    → conversation_title title ≡ ok title
    → (r : ConversationRow) → TitleValid r
    → TitleValid (updated_row c title at dropped r)
title_kept c title at dropped valid r h = elim (Bool-cases (r.id == c)) [
  | inl e ↦ rw e valid
  | inr e ↦ rw e h
]

-- The memberships that are left where one user's of one conversation is deleted.
abbrev pub without_member :
    ConversationId → ParticipantId → List ParticipantRow → List ParticipantRow
without_member c p ps = filter (λ row. not (is_member_row c p row)) ps

any-without_member :
    (c k : ConversationId) (p u : ParticipantId) (ps : List ParticipantRow)
    → any (is_member_row k u) (without_member c p ps)
      ≡ (if k == c && u == p then false else any (is_member_row k u) ps)
any-without_member c k p u [] = ground arith
any-without_member c k p u (m ∷ ps) = ground (arith, any-without_member c k p u ps)

MembersUnique-without_member :
    (c : ConversationId) (p : ParticipantId) (ps : List ParticipantRow)
    → MembersUnique ps
    → MembersUnique (without_member c p ps)
MembersUnique-without_member c p [] h = tt
MembersUnique-without_member c p (m ∷ ps) h =
    let rest = MembersUnique-without_member c p ps h.1 in
    elim (Bool-cases (is_member_row c p m)) [
      | inl e ↦ rw e rest
      | inr e ↦
          rw e (ground (arith, h.0, any-without_member c m.conversation_id p m.user_id ps), rest)
    ]

module _ (db : Database) (h : IsConsistent db) where
  pub update-IsConsistent :
      (c : ConversationId) (title : Text) (at : Time) (dropped : Option Time)
      → conversation_title title ≡ ok title
      → IsConsistent (update c title at dropped db).1
  unfolding update
  update-IsConsistent c title at dropped valid = record {
    ids_unique = IdsUnique-updated c title at dropped db.conversations h.ids_unique;
    members_unique = h.members_unique;
    titles =
        All-updated TitleValid TitleValid (updated_row c title at dropped) db.conversations
          (title_kept c title at dropped valid) h.titles;
    linked =
        All-map_of (Linked db.conversations) _ db.participants
          (λ p linked. any-updated p.conversation_id c title at dropped db.conversations ∙ linked)
          h.linked;
    owners =
        All-updated (OwnerIn db.participants) (OwnerIn db.participants)
          (updated_row c title at dropped) db.conversations
          (owner_same c title at dropped db.participants) h.owners;
  }

  -- The user whose membership goes is not the conversation's owner.
  pub remove_participant-IsConsistent :
      (c : ConversationId) (p : ParticipantId)
      → All (λ r. (r.id == c && r.owner_id == p) ≡ false) db.conversations
      → IsConsistent (remove_participant c p db).1
  unfolding remove_participant
  remove_participant-IsConsistent c p member = record {
    ids_unique = h.ids_unique;
    members_unique = MembersUnique-without_member c p db.participants h.members_unique;
    titles = h.titles;
    linked = All-filter (Linked db.conversations) _ db.participants h.linked;
    owners = go db.conversations member h.owners;
  }
    where
      go :
          (rows : List ConversationRow)
          → All (λ r. (r.id == c && r.owner_id == p) ≡ false) rows
          → All (OwnerIn db.participants) rows
          → All (OwnerIn (without_member c p db.participants)) rows
      go [] m o = tt
      go (r ∷ rows) m o = (
        ground (arith, m.0, o.0, any-without_member c r.id p r.owner_id db.participants),
        go rows m.1 o.1,
      )
