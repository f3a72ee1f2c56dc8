-- ===== src/Messaging/Services/PostMessage/Outcomes.antt =====
-- What a post leaves in the database, and what it refuses.
use dizzchat.Prelude.{◌≡◌, ap, ◌∙◌, refl, Bool, true, false, Option, none, some, ok, err}
use dizzchat.Text.{Text}
use dizzchat.Errors.{Attempt}
use dizzchat.Storage.Rows.{Database}
use dizzchat.Storage.Session.{Action, ◌>>=◌, pure, resume, after_query}
use dizzchat.Storage.Conversations.{sqlalchemy_conversation_repository, get, read_active}
use dizzchat.Storage.Messages.{
  sqlalchemy_message_repository, find_by_client_message_id, read_keyed, create,
}
use dizzchat.Storage.Messages.Outcomes.{
  Wrote, WroteOne, create-WroteOne, IsStored, read_keyed-IsStored,
}
use dizzchat.Messaging.Conversation.{ConversationId, Time}
use dizzchat.Messaging.Services.EnsureConversationAccess.Gate.{after_participant}
use dizzchat.Messaging.Message.{Message, SenderId, ClientMessageId, user}
use dizzchat.Messaging.Services.PostMessage.{from_user, find_existing}
use dizzchat.Messaging.Services.PostMessage.Idempotent.{post}

as_new : Message → Action Database (Message × Bool)
as_new m = pure (m, true)

resume-as_new :
    (c : ConversationId) (db : Database) (r : Attempt Message × Database)
    → WroteOne c db r
    → Wrote c db (resume (λ m. pure (m, true)) r)
resume-as_new c db (ok m, db') w = w
resume-as_new c db (err e, db') w = tt

module _ (c : ConversationId) (sender : SenderId) (content : Text) (key : Option ClientMessageId)
    (now : Time) (db : Database) where
  -- What follows the look for a message under the client id.
  store : Option Message → Action Database (Message × Bool)
  store existing = elim existing [
    | some message ↦ pure (message, false)
    | none ↦ do message ← create c (some sender) user content now key; pure (message, true)
  ]

  store-Wrote :
      (existing : Option Message)
      → ((m : Message) → existing ≡ some m → IsStored db.messages (c, m))
      → Wrote c db (store existing db)
  unfolding store
  store-Wrote (some m) there = (refl, there m refl)
  store-Wrote none there =
      resume-as_new c db _ (create-WroteOne c (some sender) user content now key db)

  append-Wrote :
      (key' : Option ClientMessageId)
      → Wrote c db (
          (find_existing sqlalchemy_conversation_repository sqlalchemy_message_repository c key'
              >>= store)
            db)
  unfolding find_existing find_by_client_message_id
  append-Wrote none = store-Wrote none (λ m h. absurd (cc h))
  append-Wrote (some k) =
      after_query (Wrote c db) (read_keyed c k) store db
        (λ existing e.
          store-Wrote existing λ m found. read_keyed-IsStored c k db m (e ∙ ap ok found))
        (λ e h. tt)

  -- A post that returns has put a new message of this conversation in front of the table, or has
  -- written nothing and returned a message of this conversation that stands in the table.
  pub post-Wrote : Wrote c db (post c sender content key now db)
  unfolding from_user get store
  post-Wrote =
      after_participant (Wrote c db) (read_active c) c sender db (λ e. tt)
        (λ conversation.
          find_existing sqlalchemy_conversation_repository sqlalchemy_message_repository c key
          >>= store)
        (λ conversation found member. append-Wrote key)
