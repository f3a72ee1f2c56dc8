-- ===== src/Storage/Messages/Outcomes.antt =====
-- What a write of a message leaves in the table, whether it returns or raises.
use dizzchat.Prelude.{
  ◌⊎◌, ==_iff, List, [], some, find?, subst, Option-cases, Result-cases, ℕ, suc, ◌≡◌, refl, sym, ap,
  ◌∙◌, Bool, true, false, Option, ◌∷◌, arith, ok, err, Bool-cases, inl, inr,
}
use dizzchat.Text.{Text, text_eq_iff, codes}
use dizzchat.Errors.{Attempt}
use dizzchat.Messaging.Conversation.{ConversationId, Time}
use dizzchat.Messaging.Message.{
  Message, MessageRole, SenderId, ClientMessageId, role_value, message_role, message_content,
}
use dizzchat.Storage.Rows.{MessageRow, Database}
use dizzchat.Storage.Messages.{to_domain, create, read_keyed, under_key}
use dizzchat.Storage.Messages.Log.{to_row}
use dizzchat.Storage.Messages.Writes.{refused, created}

message_role-value :
    (value : Text) (role : MessageRole) → message_role value ≡ ok role → role_value role ≡ value
unfolding message_role
message_role-value value role h =
    ground (arith, text_eq_iff value (codes "user"), text_eq_iff value (codes "assistant"))

message_content-value :
    (value : Text) (content : Text) → message_content value ≡ ok content → content ≡ value
unfolding message_content
message_content-value value content h = ground arith

-- A message that was read has the row that it was read from.
pub to_row-to_domain : (row : MessageRow) (m : Message) → to_domain row ≡ ok m → to_row m ≡ row
unfolding to_domain
to_row-to_domain row m h =
    ground (arith, message_role-value row.role m.role, message_content-value row.content m.content)

-- Whether a row stands in a table.
abbrev pub Stored : MessageRow → List MessageRow → Type 0
Stored row [] = ⊥
Stored row (r ∷ rows) = (row ≡ r) ⊎ Stored row rows

abbrev pub IsStored : List MessageRow → ConversationId × Message → Type 0
IsStored rows (c, m) = Stored (to_row m) rows × (m.conversation_id ≡ c)

find-Stored :
    (p : MessageRow → Bool) (rows : List MessageRow) (row : MessageRow)
    → find? p rows ≡ some row
    → Stored row rows × (p row ≡ true)
find-Stored p [] row h = absurd (cc h)
find-Stored p (r ∷ rows) row h = elim (Bool-cases (p r)) [
  | inl e ↦
      let same : r ≡ row = ground (arith, h, e) in (inl (sym same), subst (λ r. p r ≡ true) same e)
  | inr e ↦
      let (there, holds_) = find-Stored p rows row (ground (arith, h, e)) in (inr there, holds_)
]

-- A message that was read under a client's id stands in the table, under its conversation.
pub read_keyed-IsStored :
    (c : ConversationId) (key : ClientMessageId) (db : Database) (m : Message)
    → read_keyed c key db ≡ ok (some m)
    → IsStored db.messages (c, m)
unfolding read_keyed
read_keyed-IsStored c key db m h = elim (Option-cases (find? (under_key c key) db.messages)) [
  | inl missing ↦ absurd (cc (h, missing))
  | inr (row, found) ↦ elim (Result-cases (to_domain row)) [
    | inl (e, bad) ↦ absurd (cc (h, found, bad))
    | inr (n, good) ↦
        let same : n ≡ m = ground (arith, h, found, good) in
        let back = to_row-to_domain row m (good ∙ ap ok same) in
        let (there, under) = find-Stored (under_key c key) db.messages row found in
        (
          subst (λ r. Stored r db.messages) (sym back) there,
          ground (arith, back, under, ==_iff row.conversation_id c),
        )
  ]
]

-- How a write of a message into `c` ended: with a new message, which is now the first row; with an
-- old one, nothing being written; or by raising.
abbrev pub Wrote : ConversationId → Database → Attempt (Message × Bool) × Database → Type 0
Wrote c db (ok (m, true), db') = (db'.messages ≡ to_row m ∷ db.messages) × (m.conversation_id ≡ c)
Wrote c db (ok (m, false), db') = (db' ≡ db) × IsStored db.messages (c, m)
Wrote c db (err e, db') = Unit

abbrev pub WroteOne : ConversationId → Database → Attempt Message × Database → Type 0
WroteOne c db (ok m, db') = (db'.messages ≡ to_row m ∷ db.messages) × (m.conversation_id ≡ c)
WroteOne c db (err e, db') = Unit

stored :
    (c : ConversationId) (db : Database) (row : MessageRow) (n : ℕ)
    → row.conversation_id ≡ c
    → (r : Attempt Message) → to_domain row ≡ r
    → WroteOne c db (r, record db { messages = row ∷ db.messages; next_message_id = n })
stored c db row n same (ok m) e =
    let back : to_row m ≡ row = to_row-to_domain row m e in
    (ap (λ r. r ∷ db.messages) (sym back), ap (λ (r : MessageRow). r.conversation_id) back ∙ same)
stored c db row n same (err x) e = tt

pub create-WroteOne :
    (c : ConversationId) (sender : Option SenderId) (role : MessageRole) (content : Text)
    (now : Time) (key : Option ClientMessageId) (db : Database)
    → WroteOne c db (create c sender role content now key db)
unfolding create
create-WroteOne c sender role content now key db = elim (Bool-cases (refused c key db)) [
  | inl no_room ↦ rw no_room tt
  | inr room ↦ rw room (
      stored c db (to_row (created c sender role content now key db)) (suc db.next_message_id) refl
        _ refl)
]
