-- ===== src/Storage/Messages/Writes.antt =====
-- What an insert of a message does to the table, and how it is found again.
use dizzchat.Prelude.{
  ℕ, suc, ◌≡◌, ◌<◌, refl, ap, subst, ◌∙◌, Bool, true, false, ◌&&◌, ◌||◌, not, Option, none, some,
  List, [], ◌∷◌, map, arith, ◌==◌, find?, All, ok, err, ◌>>=◌, traverse_option, Bool-cases, inl,
  inr,
}
use dizzchat.Text.{Text}
use dizzchat.Errors.{integrity_error}
use dizzchat.Messaging.Conversation.{ConversationId, Time}
use dizzchat.Messaging.Message.{Message, MessageRole, SenderId, ClientMessageId, message_content}
use dizzchat.Messaging.Ports.{before_cursor}
use dizzchat.Storage.Rows.{Database}
use dizzchat.Storage.Messages.{
  to_domain, holds, under_key, key_taken, conversation_exists, create, find_by_client_message_id,
  read_keyed,
}
use dizzchat.Storage.Messages.Log.{to_row, IsStorable, Holds, to_domain-to_row}

-- The message that an insert makes, with the number that it takes.
abbrev pub new_message :
    ℕ
    → ConversationId
    → Option SenderId
    → MessageRole
    → Text
    → Time
    → Option ClientMessageId
    → Message
new_message id c sender role content now key = record {
  id = id;
  conversation_id = c;
  sender_id = sender;
  role = role;
  content = content;
  created_at = now;
  client_message_id = key;
}

-- The database after an insert that was refused, and after one that was not.
abbrev pub skip_number : Database → Database
skip_number db = record db { next_message_id = suc db.next_message_id }

abbrev pub with_message : Message → Database → Database
with_message m db = record db {
  next_message_id = suc db.next_message_id;
  messages = to_row m ∷ db.messages;
}

-- Whether a constraint refuses the insert.
abbrev pub refused : ConversationId → Option ClientMessageId → Database → Bool
refused c key db = not (conversation_exists c db) || key_taken c key db.messages

module _ (c : ConversationId) (sender : Option SenderId) (role : MessageRole) (content : Text)
    (now : Time) (key : Option ClientMessageId) (db : Database) where
  abbrev pub created : Message
  created = new_message db.next_message_id c sender role content now key

  pub create-refused :
      refused c key db ≡ true
      → create c sender role content now key db ≡ (err integrity_error, skip_number db)
  unfolding create
  create-refused h = rw h

  pub create-accepted :
      message_content content ≡ ok content
      → refused c key db ≡ false
      → create c sender role content now key db ≡ (ok created, with_message created db)
  unfolding create
  create-accepted valid h = rw (h) (rw (to_domain-to_row created valid))

pub Holds-skip_number :
    (db : Database) (ms : List Message) → Holds db ms → Holds (skip_number db) ms
Holds-skip_number db ms h = record {
  rows = h.rows;
  storable = h.storable;
  in_order = h.in_order;
  numbered = weaken ms h.numbered;
  keys_unique = h.keys_unique;
}
  where
    weaken :
        (ms : List Message)
        → All (λ m. m.id < db.next_message_id) ms
        → All (λ m. m.id < suc db.next_message_id) ms
    weaken [] h = tt
    weaken (m ∷ ms) h = (omega arith, weaken ms h.1)

above-All :
    (n : ℕ) (ms : List Message) → All (λ m. m.id < n) ms → All (λ m. before_cursor n m ≡ true) ms
above-All n [] h = tt
above-All n (m ∷ ms) h = (ground arith, above-All n ms h.1)

-- An accepted insert puts its message in front of those that the table holds.
pub Holds-with_message :
    (db : Database) (ms : List Message) (c : ConversationId) (sender : Option SenderId)
    (role : MessageRole) (content : Text) (now : Time) (key : Option ClientMessageId)
    → Holds db ms
    → message_content content ≡ ok content
    → refused c key db ≡ false
    → let m = new_message db.next_message_id c sender role content now key in
      Holds (with_message m db) (m ∷ ms)
Holds-with_message db ms c sender role content now key h valid accepted =
    let later = Holds-skip_number db ms h in
    record {
      rows =
          ap (λ rows. to_row (new_message db.next_message_id c sender role content now key) ∷ rows)
            h.rows;
      storable = (valid, h.storable);
      in_order = (above-All db.next_message_id ms h.numbered, h.in_order);
      numbered = (omega arith, later.numbered);
      keys_unique =
          (subst (λ rows. key_taken c key rows ≡ false) h.rows (ground arith), h.keys_unique);
    }

-- The message under a client id.
abbrev pub keyed : ConversationId → ClientMessageId → Message → Bool
keyed c key m = m.conversation_id == c && holds key m.client_message_id

find?-to_row :
    (c : ConversationId) (key : ClientMessageId) (ms : List Message)
    → All IsStorable ms
    → traverse_option to_domain (find? (under_key c key) (map to_row ms))
      ≡ ok (find? (keyed c key) ms)
find?-to_row c key [] h = refl
find?-to_row c key (m ∷ ms) h = elim (Bool-cases (keyed c key m)) [
  | inl e ↦ rw e (rw (to_domain-to_row m h.0, ◌>>=◌))
  | inr e ↦ rw e (find?-to_row c key ms h.1)
]

pub find_by_client_message_id-keyed :
    (db : Database) (ms : List Message) (c : ConversationId) (key : ClientMessageId)
    → Holds db ms
    → find_by_client_message_id c key db ≡ (ok (find? (keyed c key) ms), db)
unfolding find_by_client_message_id read_keyed
find_by_client_message_id-keyed db ms c key h =
    ap (λ r. (r, db))
      (ap (λ rows. traverse_option to_domain (find? (under_key c key) rows)) h.rows
        ∙ find?-to_row c key ms h.storable)

-- A key is taken exactly where a message is found under it.
pub key_taken-keyed :
    (c : ConversationId) (key : ClientMessageId) (ms : List Message)
    → find? (keyed c key) ms ≡ none
    → key_taken c (some key) (map to_row ms) ≡ false
key_taken-keyed c key [] h = refl
key_taken-keyed c key (m ∷ ms) h = ground (arith, key_taken-keyed c key ms)
