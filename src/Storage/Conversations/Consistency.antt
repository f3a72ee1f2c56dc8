-- ===== src/Storage/Conversations/Consistency.antt =====
-- What the tables of conversations and participants keep to, and that each write of the repository
-- keeps them so.
use dizzchat.Prelude.{
  ◌≡◌, refl, subst, Bool, true, false, ◌||◌, not, none, List, [], ◌∷◌, arith, ◌==◌, ==_iff, any,
  All, ok, Bool-cases, inl, inr,
}
use dizzchat.Text.{Text}
use dizzchat.Messaging.Conversation.{
  Uuid, Time, ConversationId, OwnerId, ParticipantId, conversation_title,
}
use dizzchat.Storage.Rows.{ConversationRow, ParticipantRow, Database}
use dizzchat.Storage.Conversations.{is_row, is_member_row, create, add_participant}

abbrev pub IdsUnique : List ConversationRow → Type 0
IdsUnique [] = Unit
IdsUnique (r ∷ rows) = (any (is_row r.id) rows ≡ false) × IdsUnique rows

abbrev pub MembersUnique : List ParticipantRow → Type 0
MembersUnique [] = Unit
MembersUnique (p ∷ ps) =
    (any (is_member_row p.conversation_id p.user_id) ps ≡ false) × MembersUnique ps

abbrev pub OwnerIn : List ParticipantRow → ConversationRow → Type 0
OwnerIn ps r = any (is_member_row r.id r.owner_id) ps ≡ true

abbrev pub Linked : List ConversationRow → ParticipantRow → Type 0
Linked rows p = any (is_row p.conversation_id) rows ≡ true

abbrev pub TitleValid : ConversationRow → Type 0
TitleValid r = conversation_title r.title ≡ ok r.title

-- Keys are unique, every title can be read back, every membership is of a conversation that exists,
-- and every conversation's owner is among its participants.
pub record IsConsistent (db : Database) : Type 0 where
  pub ids_unique : IdsUnique db.conversations
  pub members_unique : MembersUnique db.participants
  pub titles : All TitleValid db.conversations
  pub linked : All (Linked db.conversations) db.participants
  pub owners : All (OwnerIn db.participants) db.conversations

-- A pointwise consequence.
pub All-map_of {ℓ κ μ} :
    {A : Type ℓ} (P : A → Type κ) (Q : A → Type μ) (xs : List A)
    → ((x : A) → P x → Q x)
    → All P xs
    → All Q xs
All-map_of P Q [] f h = tt
All-map_of P Q (x ∷ xs) f h = (f x h.0, All-map_of P Q xs f h.1)

any-cons :
    {A : Type 0} (p : A → Bool) (x : A) (xs : List A) → any p xs ≡ true → any p (x ∷ xs) ≡ true
any-cons p x xs h = ground arith

-- No membership is of a conversation that does not exist.
unlinked :
    (c : ConversationId) (u : Uuid) (rows : List ConversationRow) (ps : List ParticipantRow)
    → any (is_row c) rows ≡ false
    → All (Linked rows) ps
    → any (is_member_row c u) ps ≡ false
unlinked c u rows [] h l = refl
unlinked c u rows (p ∷ ps) h l = elim (Bool-cases (p.conversation_id == c)) [
  | inl same ↦
      let found : any (is_row c) rows ≡ true =
        subst (λ k. any (is_row k) rows ≡ true) ((==_iff p.conversation_id c).0 same) l.0 in
      cc
  | inr other ↦ ground (arith, unlinked c u rows ps h l.1)
]

-- The first row is found.
is_row_self :
    (r : ConversationRow) (rows : List ConversationRow) → any (is_row r.id) (r ∷ rows) ≡ true
is_row_self r rows = ground arith

module _ (db : Database) (h : IsConsistent db) where
  pub create-IsConsistent :
      (c : ConversationId) (o : OwnerId) (title : Text) (now : Time)
      → conversation_title title ≡ ok title
      → IsConsistent (create c o title now now (o ∷ []) db).1
  unfolding create
  create-IsConsistent c o title now valid = elim (Bool-cases (any (is_row c) db.conversations)) [
    | inl taken ↦ rw taken h
    | inr free ↦
        let row : ConversationRow = record {
          id = c;
          owner_id = o;
          title = title;
          created_at = now;
          updated_at = now;
          deleted_at = none;
        } in
        let member : ParticipantRow = record {
          conversation_id = c;
          user_id = o;
          joined_at = now;
        } in
        rw free (record {
          ids_unique = (free, h.ids_unique);
          members_unique =
              (unlinked c o db.conversations db.participants free h.linked, h.members_unique);
          titles = (valid, h.titles);
          linked = (
            ground arith,
            All-map_of (Linked db.conversations) _ db.participants
                (λ p. any-cons (is_row p.conversation_id) row db.conversations) h.linked,
          );
          owners = (
            ground arith,
            All-map_of (OwnerIn db.participants) _ db.conversations
                (λ r. any-cons (is_member_row r.id r.owner_id) member db.participants) h.owners,
          );
        })
  ]

  pub add_participant-IsConsistent :
      (c : ConversationId) (p : ParticipantId) (now : Time)
      → IsConsistent (add_participant c p now db).1
  unfolding add_participant
  add_participant-IsConsistent c p now =
      elim (Bool-cases
        (any (is_member_row c p) db.participants || not (any (is_row c) db.conversations))) [
          | inl refused ↦ rw refused h
          | inr accepted ↦
              let member : ParticipantRow = record {
                conversation_id = c;
                user_id = p;
                joined_at = now;
              } in
              rw accepted (record {
                ids_unique = h.ids_unique;
                members_unique = (ground arith, h.members_unique);
                titles = h.titles;
                linked = (ground arith, h.linked);
                owners =
                    All-map_of (OwnerIn db.participants) _ db.conversations
                      (λ r. any-cons (is_member_row r.id r.owner_id) member db.participants)
                      h.owners;
              })
        ]
