-- ===== src/Messaging/Services/MessageExchange/Acknowledged.antt =====
-- What an exchange returns is stored, and it removes nothing.
use dizzchat.Prelude.{
  ◌∷◌, ◌≡◌, refl, sym, subst, inl, inr, Bool, true, false, Option, ok, err, Bool-cases, ◌++◌,
}
use dizzchat.Text.{Text, codes}
use dizzchat.Errors.{Attempt, redis_error}
use dizzchat.Storage.Rows.{MessageRow, Database}
use dizzchat.Storage.Session.{Action, ◌>>=◌, ◌>>◌, pure, resume}
use dizzchat.Storage.Messages.Log.{to_row}
use dizzchat.Storage.Messages.Outcomes.{Stored, IsStored}
use dizzchat.Messaging.Conversation.{ConversationId, Time}
use dizzchat.Messaging.Message.{Message, SenderId, ClientMessageId, message_content}
use dizzchat.Messaging.Outbound.{reply_to, write_from_user, write_from_assistant}
use dizzchat.Messaging.Services.MessageExchange.{announce}
use dizzchat.Messaging.Services.MessageExchange.Durable.{
  World, with_db, writer, broadcaster, run_exchange, Settled, SettledOne, from_user-Settled,
  from_assistant-SettledOne,
}

-- The rows that were there are still there.
abbrev pub KeepsRows : Database → Database → Type 0
KeepsRows db db' = (row : MessageRow) → Stored row db.messages → Stored row db'.messages

-- An outcome that keeps the rows, and whose message, if one is returned, is a row of `c`.
abbrev pub IsAcked : ConversationId → Database → Attempt Message × World → Type 0
IsAcked c db (ok m, w) = IsStored w.db.messages (c, m) × KeepsRows db w.db
IsAcked c db (err e, w) = KeepsRows db w.db

written-KeepsRows :
    (db db' : Database) (row : MessageRow) → db'.messages ≡ row ∷ db.messages → KeepsRows db db'
written-KeepsRows db db' row e r there = subst (Stored r) (sym e) (inr there)

module _ (now later : Time) (reachable : Message → Bool) (c : ConversationId) where
  -- A block that goes on after a broadcast, whose database is the same.
  after_broadcast :
      {A : Type 0} (P : Attempt A × World → Type 0) (m : Message) (k : Unit {0} → Action World A)
      (w : World)
      → P (err redis_error, w)
      → P (k tt (record w { published = (c, m) ∷ w.published }))
      → P (resume k ((broadcaster now later reachable).broadcast c m w))
  after_broadcast P m k w lost goes_on = elim (Bool-cases (reachable m)) [
    | inl sent ↦ rw sent goes_on
    | inr unsent ↦ rw unsent lost
  ]

  -- What follows the reply, which is written and broadcast.
  reply_with : Message → Text → Action World Message
  reply_with m reply = do
    a ← (writer now later reachable).from_assistant c reply
    (broadcaster now later reachable).broadcast c a
    pure m

  written-IsAcked :
      (m : Message) (w : World) (r : Attempt Message × Database)
      → SettledOne c w.db r
      → IsStored w.db.messages (c, m)
      → IsAcked c w.db
          (resume (λ a. (broadcaster now later reachable).broadcast c a >> pure m) (with_db w r))
  written-IsAcked m w (ok a, db') s stored =
      let keeps = written-KeepsRows w.db db' (to_row a) s.0 in
      after_broadcast (IsAcked c w.db) a (λ _. pure m) (record w { db = db' }) keeps
        ((keeps (to_row m) stored.0, stored.1), keeps)
  written-IsAcked m w (err e, db') s stored = λ row there. subst (Stored row) (sym s) there

  replied-IsAcked :
      (m : Message) (reply : Attempt Text) (w : World)
      → IsStored w.db.messages (c, m)
      → IsAcked c w.db (resume (reply_with m) (reply, w))
  unfolding reply_with
  replied-IsAcked m (ok text) w stored =
      written-IsAcked m w (write_from_assistant c text later w.db)
        (from_assistant-SettledOne c text later w.db) stored
  replied-IsAcked m (err e) w stored = λ row there. there

  announce-IsAcked :
      (content : Text) (m : Message) (w : World)
      → IsStored w.db.messages (c, m)
      → IsAcked c w.db (
          announce
            (writer now later reachable)
            (record { reply_to = reply_to })
            (broadcaster now later reachable)
            c
            content
            m
            w)
  unfolding announce reply_to reply_with
  announce-IsAcked content m w stored =
      after_broadcast (IsAcked c w.db) m _ w (λ row there. there)
        (replied-IsAcked m (message_content (codes "You said: " ++ content))
          (record w { published = (c, m) ∷ w.published }) stored)

  later_than :
      (db db' : Database) (r : Attempt Message × World)
      → KeepsRows db db'
      → IsAcked c db' r
      → IsAcked c db r
  later_than db db' (ok m, w) first (stored, then_) =
      (stored, λ row there. then_ row (first row there))
  later_than db db' (err e, w) first then_ = λ row there. then_ row (first row there)

  -- What follows the user's write.
  go_on : Text → Message × Bool → Action World Message
  go_on content (m, created) = elim created [
    | false ↦ pure m
    | true ↦
        announce (writer now later reachable) (record { reply_to = reply_to })
          (broadcaster now later reachable) c content m
  ]

  go_on-IsAcked :
      (content : Text) (w : World) (r : Attempt (Message × Bool) × Database)
      → Settled c w.db r
      → IsAcked c w.db (resume (go_on content) (with_db w r))
  unfolding go_on
  go_on-IsAcked content w (ok (m, true), db') s =
      let stored : IsStored db'.messages (c, m) =
        subst (λ rs. IsStored rs (c, m)) (sym s.0) (inl refl, s.1) in
      later_than w.db db' _ (written-KeepsRows w.db db' (to_row m) s.0)
        (announce-IsAcked content m (record w { db = db' }) stored)
  go_on-IsAcked content w (ok (m, false), db') s =
      subst (λ (db : Database). IsStored db.messages (c, m) × KeepsRows w.db db) (sym s.0)
        (s.1, λ row there. there)
  go_on-IsAcked content w (err e, db') s = λ row there. subst (Stored row) (sym s) there

  -- An exchange removes no message, however it ends; and a message that it returns, new or found
  -- under the client's id, is a committed row of the conversation.
  pub exchange-IsAcked :
      (sender : SenderId) (content : Text) (key : Option ClientMessageId) (w : World)
      → IsAcked c w.db (run_exchange now later reachable c sender content key w)
  unfolding run_exchange go_on
  exchange-IsAcked sender content key w =
      go_on-IsAcked content w (write_from_user c sender content key now w.db)
        (from_user-Settled c sender content key now w.db)
