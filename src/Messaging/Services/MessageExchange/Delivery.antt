-- ===== src/Messaging/Services/MessageExchange/Delivery.antt =====
-- The exchange that goes well, and the exchange of a repeat.
use dizzchat.Prelude.{suc, ◌≡◌, refl, Bool, true, Option, none, some, List, ◌∷◌, ◌++◌, find?, ok}
use dizzchat.Text.{Text, codes, strip}
use dizzchat.Storage.Session.{resume, transaction}
use dizzchat.Storage.Conversations.{read_active}
use dizzchat.Storage.Conversations.Reads.{get-exists}
use dizzchat.Storage.Messages.Log.{Holds}
use dizzchat.Storage.Messages.Writes.{new_message, with_message, keyed, create-accepted}
use dizzchat.Messaging.Conversation.{Conversation, ConversationId, Time, is_participant}
use dizzchat.Messaging.Message.{
  Message, SenderId, ClientMessageId, user, assistant, message_content,
}
use dizzchat.Messaging.Outbound.{reply_to, write_from_user, write_from_assistant}
use dizzchat.Messaging.Services.PostMessage.{from_assistant}
use dizzchat.Messaging.Services.PostMessage.Idempotent.{IsFresh, post-new, post-stored}
use dizzchat.Messaging.Services.MessageExchange.{announce}
use dizzchat.Messaging.Services.MessageExchange.Durable.{World, run_exchange}

-- The mock assistant's reply is never blank.
reply_is_content :
    (content : Text)
    → message_content (codes "You said: " ++ content) ≡ ok (codes "You said: " ++ content)
unfolding message_content strip
reply_is_content content = refl

module _ (now later : Time) (reachable : Message → Bool) (c : ConversationId) (sender : SenderId)
    (content : Text) (key : Option ClientMessageId) (w : World) (ms : List Message)
    (conversation : Conversation) (holds : Holds w.db ms)
    (found : read_active c w.db ≡ ok (some conversation))
    (member : is_participant sender conversation ≡ true) where
  abbrev pub question : Message
  question = new_message w.db.next_message_id c (some sender) user content now key

  abbrev pub reply : Message
  reply =
      new_message (suc w.db.next_message_id) c none assistant (codes "You said: " ++ content) later
        none

  user_write :
      message_content content ≡ ok content
      → IsFresh c key ms
      → write_from_user c sender content key now w.db
        ≡ (ok (question, true), with_message question w.db)
  unfolding write_from_user transaction
  user_write valid fresh =
      rw ((post-new w.db ms c sender key conversation content now holds found member valid fresh).1)

  assistant_write :
      write_from_assistant c (codes "You said: " ++ content) later (with_message question w.db)
      ≡ (ok reply, with_message reply (with_message question w.db))
  unfolding write_from_assistant from_assistant transaction
  assistant_write = rw (
      create-accepted c none assistant (codes "You said: " ++ content) later none
        (with_message question w.db) (reply_is_content content) (rw (get-exists c w.db found)))

  -- A new message of a participant, with the broadcaster reachable, is stored and published, and then
  -- so is the assistant's reply, under the next number; the sender gets the message that was stored.
  pub exchange-delivers :
      message_content content ≡ ok content
      → IsFresh c key ms
      → ((m : Message) → reachable m ≡ true)
      → run_exchange now later reachable c sender content key w ≡ (
        ok question,
        record {
          db = with_message reply (with_message question w.db);
          published = (c, reply) ∷ (c, question) ∷ w.published;
        },
      )
  unfolding run_exchange announce reply_to
  exchange-delivers valid fresh open_to =
      rw (user_write valid fresh, resume)
        (rw (open_to question) (
          rw (reply_is_content content, resume)
            (rw (assistant_write, resume) (rw (open_to reply)))))

-- A repeat of a send, by a participant: the stored message comes back, nothing is published, no
-- second reply is made and nothing is written, whatever the text, the broadcaster and the time.
pub exchange-repeats :
    (now later : Time) (reachable : Message → Bool) (c : ConversationId) (sender : SenderId)
    (content : Text) (key : ClientMessageId) (w : World) (ms : List Message)
    (conversation : Conversation) (m : Message)
    → Holds w.db ms
    → read_active c w.db ≡ ok (some conversation)
    → is_participant sender conversation ≡ true
    → find? (keyed c key) ms ≡ some m
    → run_exchange now later reachable c sender content (some key) w ≡ (ok m, w)
unfolding run_exchange write_from_user transaction
exchange-repeats now later reachable c sender content key w ms conversation m holds found member e =
    rw (post-stored w.db ms c sender key conversation holds found member content now m e)
