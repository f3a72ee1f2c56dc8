-- ===== src/Messaging/Services/PostMessage/Idempotent.antt =====
-- A send with a client id, and its repeats.
use dizzchat.Prelude.{
  ◌≡◌, subst, sym, Bool, true, false, not, Option, none, some, List, ◌∷◌, arith, find?, ok, is_some,
  inl, inr, Option-cases,
}
use dizzchat.Text.{Text}
use dizzchat.Storage.Session.{Action, resume}
use dizzchat.Storage.Rows.{Database}
use dizzchat.Storage.Conversations.{sqlalchemy_conversation_repository, get, read_active}
use dizzchat.Storage.Conversations.Reads.{get-exists}
use dizzchat.Storage.Messages.{sqlalchemy_message_repository, key_taken}
use dizzchat.Storage.Messages.Log.{Holds}
use dizzchat.Storage.Messages.Writes.{
  new_message, with_message, keyed, refused, create-accepted, find_by_client_message_id-keyed,
  key_taken-keyed, Holds-with_message,
}
use dizzchat.Messaging.Conversation.{
  Conversation, ConversationId, Time, is_participant, ensure_participant,
}
use dizzchat.Messaging.Message.{Message, SenderId, ClientMessageId, user, message_content}
use dizzchat.Messaging.Services.PostMessage.{from_user}

-- `PostMessage` over the database.
abbrev pub post :
    ConversationId
    → SenderId
    → Text
    → Option ClientMessageId
    → Time
    → Action Database (Message × Bool)
post = from_user sqlalchemy_conversation_repository sqlalchemy_message_repository

key_found :
    (c : ConversationId) (key : ClientMessageId) (m : Message) (ms : List Message)
    → keyed c key m ≡ true
    → find? (keyed c key) (m ∷ ms) ≡ some m
key_found c key m ms e = rw e

module _ (db : Database) (ms : List Message) (c : ConversationId) (sender : SenderId)
    (key : ClientMessageId) (conversation : Conversation) (holds : Holds db ms)
    (found : read_active c db ≡ ok (some conversation))
    (member : is_participant sender conversation ≡ true) where
  -- A key that is stored already.
  pub post-stored :
      (content : Text) (now : Time) (m : Message)
      → find? (keyed c key) ms ≡ some m
      → post c sender content (some key) now db ≡ (ok (m, false), db)
  unfolding from_user ensure_participant get
  post-stored content now m e =
      rw found (rw member (rw (find_by_client_message_id-keyed db ms c key holds, resume) (rw e)))

  fresh-accepted : find? (keyed c key) ms ≡ none → refused c (some key) db ≡ false
  fresh-accepted e = rw (get-exists c db found) (
      subst (λ rows. key_taken c (some key) rows ≡ false) (sym holds.rows)
        (key_taken-keyed c key ms e))

  post-fresh :
      (content : Text) (now : Time)
      → message_content content ≡ ok content
      → find? (keyed c key) ms ≡ none
      → let m = new_message db.next_message_id c (some sender) user content now (some key) in
        post c sender content (some key) now db ≡ (ok (m, true), with_message m db)
  unfolding from_user ensure_participant get
  post-fresh content now valid e = rw found (
      rw member (
        rw (find_by_client_message_id-keyed db ms c key holds, resume)
          (rw e (
            rw (
              create-accepted c (some sender) user content now (some key) db valid
                  (fresh-accepted e),
              resume,
            )))))

-- No message of the conversation is stored under the key, if there is one.
abbrev pub IsFresh : ConversationId → Option ClientMessageId → List Message → Type 0
IsFresh c none ms = Unit
IsFresh c (some key) ms = find? (keyed c key) ms ≡ none

-- The post of a message that is new, with a key or without.
pub post-new :
    (db : Database) (ms : List Message) (c : ConversationId) (sender : SenderId)
    (key : Option ClientMessageId) (conversation : Conversation) (content : Text) (now : Time)
    → Holds db ms
    → read_active c db ≡ ok (some conversation)
    → is_participant sender conversation ≡ true
    → message_content content ≡ ok content
    → IsFresh c key ms
    → let m = new_message db.next_message_id c (some sender) user content now key in
      (refused c key db ≡ false)
      × (post c sender content key now db ≡ (ok (m, true), with_message m db))
unfolding from_user ensure_participant get
post-new db ms c sender (some key) conversation content now holds found member valid fresh = (
  fresh-accepted db ms c sender key conversation holds found member fresh,
  post-fresh db ms c sender key conversation holds found member content now valid fresh,
)
post-new db ms c sender none conversation content now holds found member valid fresh =
    let accepted : refused c none db ≡ false = rw (get-exists c db found) in
    (
      accepted,
      rw found (
          rw member
            (rw (create-accepted c (some sender) user content now none db valid accepted, resume))),
    )

-- A send with a client id by a participant of an active conversation succeeds. It stores a message
-- exactly if none was stored under the id, and every repeat with the same id, whatever its text and
-- time, returns that same message as an old one and changes nothing in the database.
pub from_user-idempotent :
    (db : Database) (ms : List Message) (c : ConversationId) (sender : SenderId)
    (key : ClientMessageId) (conversation : Conversation) (content again : Text) (now later : Time)
    → Holds db ms
    → read_active c db ≡ ok (some conversation)
    → is_participant sender conversation ≡ true
    → message_content content ≡ ok content
    → (m : Message) × (created : Bool) × (db' : Database) × (post c sender content (some key) now db
        ≡ (ok (m, created), db'))
      × (created ≡ not (is_some (find? (keyed c key) ms)))
      × (post c sender again (some key) later db' ≡ (ok (m, false), db'))
unfolding read_active
from_user-idempotent db ms c sender key conversation content again now later holds found member
      valid =
    elim (Option-cases (find? (keyed c key) ms)) [
      | inl e ↦
          let m : Message =
            new_message db.next_message_id c (some sender) user content now (some key) in
          (
            m,
            true,
            with_message m db,
            post-fresh db ms c sender key conversation holds found member content now valid e,
            rw e,
            post-stored (with_message m db) (m ∷ ms) c sender key conversation
                (Holds-with_message db ms c (some sender) user content now (some key) holds valid
                  (fresh-accepted db ms c sender key conversation holds found member e))
                found member again later m (key_found c key m ms (ground arith)),
          )
      | inr (m, e) ↦ (
        m,
        false,
        db,
        post-stored db ms c sender key conversation holds found member content now m e,
        rw e,
        post-stored db ms c sender key conversation holds found member again later m e,
      )
    ]
