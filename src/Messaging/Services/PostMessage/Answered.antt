-- ===== src/Messaging/Services/PostMessage/Answered.antt =====
-- What a post comes to, told by the messages that are stored and without the repositories.
use dizzchat.Prelude.{
  ◌≡◌, refl, Bool, true, false, Option, none, some, List, find?, ok, err, if◌then◌else◌, Bool-cases,
  Option-cases, inl, inr,
}
use dizzchat.Text.{Text}
use dizzchat.Errors.{
  Attempt, conversation_error, conversation_not_found, not_conversation_participant,
}
use dizzchat.Storage.Rows.{Database}
use dizzchat.Storage.Conversations.{get, read_active}
use dizzchat.Storage.Messages.Log.{Holds}
use dizzchat.Storage.Messages.Writes.{new_message, with_message, keyed}
use dizzchat.Messaging.Conversation.{
  Conversation, ConversationId, Time, is_participant, ensure_participant,
}
use dizzchat.Messaging.Message.{Message, SenderId, ClientMessageId, user, message_content}
use dizzchat.Messaging.Services.PostMessage.{from_user}
use dizzchat.Messaging.Services.PostMessage.Idempotent.{post, post-stored, post-new}

-- The conversation's message under a client id, if one was given.
abbrev pub stored_under : ConversationId → Option ClientMessageId → List Message → Option Message
stored_under c none ms = none
stored_under c (some key) ms = find? (keyed c key) ms

-- What a participant's post comes to.
abbrev pub stored :
    ConversationId
    → SenderId
    → Text
    → Time
    → Database
    → Option ClientMessageId
    → Option Message
    → Attempt (Message × Bool) × Database
stored c sender content now db key (some m) = (ok (m, false), db)
stored c sender content now db key none =
    let m = new_message db.next_message_id c (some sender) user content now key in
    (ok (m, true), with_message m db)

module _ (c : ConversationId) (sender : SenderId) (content : Text) (key : Option ClientMessageId)
    (now : Time) (db : Database) (ms : List Message) where
  -- What a post comes to, by the conversation that is found.
  abbrev pub answer : Attempt (Option Conversation) → Attempt (Message × Bool) × Database
  answer (err e) = (err e, db)
  answer (ok none) = (err (conversation_error (conversation_not_found c)), db)
  answer (ok (some conversation)) =
      if is_participant sender conversation
      then stored c sender content now db key (stored_under c key ms)
      else (err (conversation_error not_conversation_participant), db)

  module _ (holds : Holds db ms) (valid : message_content content ≡ ok content) where
    by_participant :
        (conversation : Conversation)
        → read_active c db ≡ ok (some conversation)
        → is_participant sender conversation ≡ true
        → post c sender content key now db
          ≡ stored c sender content now db key (stored_under c key ms)
    by_participant conversation found member = go key
      where
        go :
            (key' : Option ClientMessageId)
            → post c sender content key' now db
              ≡ stored c sender content now db key' (stored_under c key' ms)
        go none =
            (post-new db ms c sender none conversation content now holds found member valid tt).1
        go (some k) = elim (Option-cases (find? (keyed c k) ms)) [
          | inl fresh ↦
              rw fresh
                (post-new db ms c sender (some k) conversation content now holds found member valid
                  fresh).1
          | inr (m, old) ↦
              rw old
                (post-stored db ms c sender k conversation holds found member content now m old)
        ]

    by_conversation :
        (r : Attempt (Option Conversation))
        → read_active c db ≡ r
        → post c sender content key now db ≡ answer r
    unfolding from_user ensure_participant get
    by_conversation (err e) found = rw found refl
    by_conversation (ok none) found = rw found refl
    by_conversation (ok (some conversation)) found =
        elim (Bool-cases (is_participant sender conversation)) [
          | inl member ↦ rw member (by_participant conversation found member)
          | inr stranger ↦ rw found (rw stranger refl)
        ]

    -- On tables whose messages are a well-formed log, and for valid content, a post comes to exactly
    -- this. Where the conversation cannot be read, is not there or is deleted, or the sender takes no
    -- part in it, it raises the error for it and changes nothing. Otherwise, where a message of the
    -- conversation is stored under the client id, that message is returned as an old one and nothing
    -- is changed; and where none is, or no id was given, the new message is returned as new, with the
    -- next number, the sender, the role of a user, the content, the time and the id, and its row is
    -- added in front of the table, which takes the number and changes nothing else.
    pub post-answer : post c sender content key now db ≡ answer (read_active c db)
    post-answer = by_conversation (read_active c db) refl
