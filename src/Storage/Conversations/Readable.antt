-- ===== src/Storage/Conversations/Readable.antt =====
-- Consistent tables are read without an error, and give well-formed conversations.
use dizzchat.Prelude.{
  ◌≡◌, refl, subst, ◌∙◌, false, Option, none, some, List, [], ◌∷◌, map, arith, ◌==◌, ==_iff, any,
  All, find?, contains, ok, Bool-cases, Option-cases, inl, inr,
}
use dizzchat.Messaging.Conversation.{Uuid, Conversation, ConversationId, is_participant}
use dizzchat.Messaging.Conversation.Membership.{IsWellFormed, Distinct}
use dizzchat.Storage.Rows.{ConversationRow, ParticipantRow, Database, empty_database}
use dizzchat.Storage.Conversations.{is_row, is_member_row, read_any, to_domain, participants_of}
use dizzchat.Storage.Conversations.Consistency.{IsConsistent, MembersUnique, OwnerIn, TitleValid}

abbrev pub AllIn {ℓ κ} : {A : Type ℓ} → (A → Type κ) → Option A → Type κ
AllIn P none = Unit
AllIn P (some a) = P a

pub empty-IsConsistent : IsConsistent empty_database
empty-IsConsistent = record {
  ids_unique = tt;
  members_unique = tt;
  titles = tt;
  linked = tt;
  owners = tt;
}

-- The users of a conversation's memberships.
abbrev pub user_ids : ConversationId → List ParticipantRow → List Uuid
user_ids c ps = map (λ (row : ParticipantRow). row.user_id) (participants_of c ps)

pub contains-user_ids :
    (c : ConversationId) (u : Uuid) (ps : List ParticipantRow)
    → contains u (user_ids c ps) ≡ any (is_member_row c u) ps
contains-user_ids c u [] = refl
contains-user_ids c u (p ∷ ps) = ground (arith, contains-user_ids c u ps)

user_ids-Distinct :
    (c : ConversationId) (ps : List ParticipantRow) → MembersUnique ps → Distinct (user_ids c ps)
user_ids-Distinct c [] h = tt
user_ids-Distinct c (p ∷ ps) h = elim (Bool-cases (p.conversation_id == c)) [
  | inl e ↦
      let same = (==_iff p.conversation_id c).0 e in
      let unique : any (is_member_row c p.user_id) ps ≡ false =
        subst (λ k. any (is_member_row k p.user_id) ps ≡ false) same h.0 in
      rw e (contains-user_ids c p.user_id ps ∙ unique, user_ids-Distinct c ps h.1)
  | inr e ↦ rw e (user_ids-Distinct c ps h.1)
]

pub All-find :
    (P : ConversationRow → Type 0) (c : ConversationId) (rows : List ConversationRow)
    (row : ConversationRow)
    → All P rows
    → find? (is_row c) rows ≡ some row
    → P row
All-find P c [] row h found = absurd (cc found)
All-find P c (r ∷ rows) row h found = elim (Bool-cases (is_row c r)) [
  | inl here ↦ let same : r ≡ row = ground arith in subst P same h.0
  | inr elsewhere ↦ All-find P c rows row h.1 (ground arith)
]

pub readable :
    (c : ConversationId) (db : Database)
    → IsConsistent db
    → (found : Option Conversation) × (read_any c db ≡ ok found) × AllIn IsWellFormed found
unfolding read_any to_domain is_participant
readable c db h = elim (Option-cases (find? (is_row c) db.conversations)) [
  | inl e ↦ (none, rw (e, read_any) refl, tt)
  | inr (row, e) ↦
      let valid = All-find TitleValid c db.conversations row h.titles e in
      let owner = All-find (OwnerIn db.participants) c db.conversations row h.owners e in
      (
        some record {
          id = row.id;
          owner_id = row.owner_id;
          title = row.title;
          created_at = row.created_at;
          updated_at = row.updated_at;
          deleted_at = row.deleted_at;
          participant_ids = user_ids row.id db.participants;
        },
        rw (e, read_any) (rw (valid, to_domain) refl),
        record {
          owner_takes_part = contains-user_ids row.id row.owner_id db.participants ∙ owner;
          distinct = user_ids-Distinct row.id db.participants h.members_unique;
        },
      )
]
