-- ===== src/Messaging/Services/MessageExchange/Durable.antt =====
-- What is broadcast is stored: the exchange over the database, with every broadcast recorded.
use dizzchat.Prelude.{
  ◌≡◌, refl, sym, subst, inl, inr, Bool, true, false, Option, none, List, [], ◌∷◌, ◌++◌, All, ok,
  err, Bool-cases, if◌then◌else◌,
}
use dizzchat.Text.{Text, codes}
use dizzchat.Errors.{Attempt, redis_error}
use dizzchat.Storage.Rows.{MessageRow, Database}
use dizzchat.Storage.Session.{Action, ◌>>=◌, ◌>>◌, pure, resume, transaction, settle}
use dizzchat.Storage.Messages.Log.{to_row}
use dizzchat.Storage.Messages.Outcomes.{IsStored, Wrote, WroteOne, create-WroteOne}
use dizzchat.Messaging.Conversation.{ConversationId, Time}
use dizzchat.Messaging.Message.{Message, SenderId, ClientMessageId, assistant, message_content}
use dizzchat.Messaging.Ports.{MessageWriter, MessageBroadcaster}
use dizzchat.Messaging.Outbound.{reply_to, write_from_user, write_from_assistant}
use dizzchat.Messaging.Services.PostMessage.{from_assistant}
use dizzchat.Messaging.Services.PostMessage.Outcomes.{post-Wrote}
use dizzchat.Messaging.Services.MessageExchange.{announce, exchange}

-- The database, and what was published so far, the latest first.
pub record World : Type 0 where
  pub db : Database
  pub published : List (ConversationId × Message)

-- The world after a unit of work on its database.
abbrev pub with_db {κ} : {A : Type κ} → World → Attempt A × Database → Attempt A × World
with_db w (r, db') = (r, record w { db = db' })

abbrev pub on_db {κ} : {A : Type κ} → Action Database A → Action World A
on_db m w = with_db w (m w.db)

-- The ports of the exchange: the writer at the times `now` and `later`, the assistant, and a
-- broadcaster whose publishing fails where `reachable` says so.
module _ (now later : Time) (reachable : Message → Bool) where
  abbrev pub writer : MessageWriter World
  writer = record {
    from_user = λ c sender content key. on_db (write_from_user c sender content key now);
    from_assistant = λ c content. on_db (write_from_assistant c content later);
  }

  abbrev pub broadcaster : MessageBroadcaster World
  broadcaster = record {
    broadcast = λ c m w.
        if reachable m
        then (ok tt, record w { published = (c, m) ∷ w.published })
        else (err redis_error, w);
  }

  unfoldable pub run_exchange :
      ConversationId → SenderId → Text → Option ClientMessageId → Action World Message
  unfolding exchange
  run_exchange = exchange writer (record { reply_to = reply_to }) broadcaster

-- Every message that was published is a row of the table, under the conversation it went to.
abbrev pub IsDurable : World → Type 0
IsDurable w = All (IsStored w.db.messages) w.published

IsDurable-extend :
    (row : MessageRow) (rows : List MessageRow) (ps : List (ConversationId × Message))
    → All (IsStored rows) ps
    → All (IsStored (row ∷ rows)) ps
IsDurable-extend row rows [] h = h
IsDurable-extend row rows (p ∷ ps) h = ((inr h.0.0, h.0.1), IsDurable-extend row rows ps h.1)

IsDurable-written :
    (w : World) (db' : Database) (m : Message)
    → IsDurable w
    → db'.messages ≡ to_row m ∷ w.db.messages
    → IsDurable (record w { db = db' })
IsDurable-written w db' m h e =
    subst (λ rows. All (IsStored rows) w.published) (sym e)
      (IsDurable-extend (to_row m) w.db.messages w.published h)

first-IsStored :
    (c : ConversationId) (m : Message) (rows rows' : List MessageRow)
    → rows' ≡ to_row m ∷ rows
    → m.conversation_id ≡ c
    → IsStored rows' (c, m)
first-IsStored c m rows rows' e same = subst (λ rs. IsStored rs (c, m)) (sym e) (inl refl, same)

-- How a unit of work ended: as `Wrote`, and with the old rows if it raised.
abbrev pub Settled : ConversationId → Database → Attempt (Message × Bool) × Database → Type 0
Settled c db (ok (m, true), db') = (db'.messages ≡ to_row m ∷ db.messages) × (m.conversation_id ≡ c)
Settled c db (ok (m, false), db') = (db' ≡ db) × IsStored db.messages (c, m)
Settled c db (err e, db') = db'.messages ≡ db.messages

abbrev pub SettledOne : ConversationId → Database → Attempt Message × Database → Type 0
SettledOne c db (ok m, db') = (db'.messages ≡ to_row m ∷ db.messages) × (m.conversation_id ≡ c)
SettledOne c db (err e, db') = db'.messages ≡ db.messages

settle-Settled :
    (c : ConversationId) (db : Database) (r : Attempt (Message × Bool) × Database)
    → Wrote c db r
    → Settled c db (settle db r)
unfolding settle
settle-Settled c db (ok (m, true), db') h = h
settle-Settled c db (ok (m, false), db') h = h
settle-Settled c db (err e, db') h = refl

settle-SettledOne :
    (c : ConversationId) (db : Database) (r : Attempt Message × Database)
    → WroteOne c db r
    → SettledOne c db (settle db r)
unfolding settle
settle-SettledOne c db (ok m, db') h = h
settle-SettledOne c db (err e, db') h = refl

pub from_user-Settled :
    (c : ConversationId) (sender : SenderId) (content : Text) (key : Option ClientMessageId)
    (now : Time) (db : Database)
    → Settled c db (write_from_user c sender content key now db)
unfolding write_from_user transaction settle
from_user-Settled c sender content key now db =
    settle-Settled c db _ (post-Wrote c sender content key now db)

pub from_assistant-SettledOne :
    (c : ConversationId) (content : Text) (now : Time) (db : Database)
    → SettledOne c db (write_from_assistant c content now db)
unfolding write_from_assistant from_assistant transaction settle
from_assistant-SettledOne c content now db =
    settle-SettledOne c db _ (create-WroteOne c none assistant content now none db)

module _ (now later : Time) (reachable : Message → Bool) (c : ConversationId) where
  broadcast-IsDurable :
      {A : Type 0} (m : Message) (k : Unit {0} → Action World A) (w : World)
      → IsDurable w
      → IsStored w.db.messages (c, m)
      → ((w' : World) → IsDurable w' → IsDurable (k tt w').1)
      → IsDurable (resume k ((broadcaster now later reachable).broadcast c m w)).1
  broadcast-IsDurable m k w h stored goes_on = elim (Bool-cases (reachable m)) [
    | inl sent ↦ rw sent (goes_on (record w { published = (c, m) ∷ w.published }) (stored, h))
    | inr lost ↦ rw lost h
  ]

  -- The assistant's message is written, and then broadcast.
  answer : Message → Text → Action World Message
  answer m reply = do
    a ← (writer now later reachable).from_assistant c reply
    (broadcaster now later reachable).broadcast c a
    pure m

  answered-IsDurable :
      (m : Message) (w : World) (r : Attempt Message × Database)
      → SettledOne c w.db r
      → IsDurable w
      → IsDurable
          (resume (λ a. (broadcaster now later reachable).broadcast c a >> pure m) (with_db w r)).1
  answered-IsDurable m w (ok a, db') s h =
      broadcast-IsDurable a (λ _. pure m) (record w { db = db' }) (IsDurable-written w db' a h s.0)
        (first-IsStored c a w.db.messages db'.messages s.0 s.1) (λ w' h'. h')
  answered-IsDurable m w (err e, db') s h =
      subst (λ rows. All (IsStored rows) w.published) (sym s) h

  answer-IsDurable :
      (m : Message) (reply : Attempt Text) (w : World)
      → IsDurable w
      → IsDurable (resume (answer m) (reply, w)).1
  unfolding answer
  answer-IsDurable m (ok text) w h =
      answered-IsDurable m w (write_from_assistant c text later w.db)
        (from_assistant-SettledOne c text later w.db) h
  answer-IsDurable m (err e) w h = h

  announce-IsDurable :
      (content : Text) (m : Message) (w : World)
      → IsDurable w
      → IsStored w.db.messages (c, m)
      → IsDurable
          (announce
            (writer now later reachable)
            (record { reply_to = reply_to })
            (broadcaster now later reachable)
            c
            content
            m
            w).1
  unfolding announce reply_to answer
  announce-IsDurable content m w h stored =
      broadcast-IsDurable m _ w h stored
        (λ w' h'. answer-IsDurable m (message_content (codes "You said: " ++ content)) w' h')

  -- What follows the user's write.
  follow : Text → Message × Bool → Action World Message
  follow content (m, created) = elim created [
    | false ↦ pure m
    | true ↦
        announce (writer now later reachable) (record { reply_to = reply_to })
          (broadcaster now later reachable) c content m
  ]

  follow-IsDurable :
      (content : Text) (w : World) (r : Attempt (Message × Bool) × Database)
      → Settled c w.db r
      → IsDurable w
      → IsDurable (resume (follow content) (with_db w r)).1
  unfolding follow
  follow-IsDurable content w (ok (m, true), db') s h =
      announce-IsDurable content m (record w { db = db' }) (IsDurable-written w db' m h s.0)
        (first-IsStored c m w.db.messages db'.messages s.0 s.1)
  follow-IsDurable content w (ok (m, false), db') s h =
      subst (λ (db : Database). IsDurable (record w { db = db })) (sym s.0) h
  follow-IsDurable content w (err e, db') s h =
      subst (λ rows. All (IsStored rows) w.published) (sym s) h

  -- Whatever an exchange meets (a sender who may not post, a repeat, an assistant that fails, a
  -- refused row, an unreachable broadcaster), every message that was published is, when the exchange
  -- ends, a committed row of the conversation that it was published to.
  pub exchange-IsDurable :
      (sender : SenderId) (content : Text) (key : Option ClientMessageId) (w : World)
      → IsDurable w
      → IsDurable (run_exchange now later reachable c sender content key w).1
  unfolding run_exchange follow
  exchange-IsDurable sender content key w h =
      follow-IsDurable content w (write_from_user c sender content key now w.db)
        (from_user-Settled c sender content key now w.db) h
