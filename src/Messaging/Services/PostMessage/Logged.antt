-- ===== src/Messaging/Services/PostMessage/Logged.antt =====
-- That the writer's posts keep the table of messages a log.
use dizzchat.Prelude.{
  ◌≡◌, refl, sym, subst, Bool, true, false, Option, none, some, List, ◌∷◌, ok, err, Bool-cases, inl,
  inr, ◌⊎◌,
}
use dizzchat.Text.{Text}
use dizzchat.Errors.{Attempt}
use dizzchat.Storage.Rows.{Database}
use dizzchat.Storage.Session.{Action, ◌>>=◌, pure, resume, after_query, settle, transaction}
use dizzchat.Storage.Conversations.{sqlalchemy_conversation_repository, get, read_active}
use dizzchat.Storage.Messages.{
  sqlalchemy_message_repository, find_by_client_message_id, read_keyed, create,
}
use dizzchat.Storage.Messages.Log.{Holds}
use dizzchat.Storage.Messages.Writes.{
  skip_number, refused, create-refused, create-accepted, Holds-skip_number, Holds-with_message,
}
use dizzchat.Messaging.Conversation.{ConversationId, Time}
use dizzchat.Messaging.Message.{Message, SenderId, ClientMessageId, user, message_content}
use dizzchat.Messaging.Services.EnsureConversationAccess.Gate.{after_participant}
use dizzchat.Messaging.Services.PostMessage.{from_user, find_existing}
use dizzchat.Messaging.Services.PostMessage.Idempotent.{post}
use dizzchat.Messaging.Outbound.{write_from_user}

-- How a post ends on tables that hold the messages `ms`.
abbrev pub Logged : List Message → Database → Attempt (Message × Bool) × Database → Type 0
Logged ms db (ok (m, true), db') = Holds db' (m ∷ ms)
Logged ms db (ok (m, false), db') = db' ≡ db
Logged ms db (err e, db') = (db' ≡ db) ⊎ (db' ≡ skip_number db)

-- The messages that the table holds after a write of the writer: the new one and those before, or
-- those before.
abbrev pub HoldsAfter : List Message → Attempt (Message × Bool) × Database → Type 0
HoldsAfter ms (ok (m, true), db') = Holds db' (m ∷ ms)
HoldsAfter ms (ok (m, false), db') = Holds db' ms
HoldsAfter ms (err e, db') = Holds db' ms

module _ (c : ConversationId) (sender : SenderId) (content : Text) (key : Option ClientMessageId)
    (now : Time) (db : Database) (ms : List Message) (holds : Holds db ms)
    (valid : message_content content ≡ ok content) where
  keep : Option Message → Action Database (Message × Bool)
  keep existing = elim existing [
    | some message ↦ pure (message, false)
    | none ↦ do message ← create c (some sender) user content now key; pure (message, true)
  ]

  keep-Logged : (existing : Option Message) → Logged ms db (keep existing db)
  unfolding keep
  keep-Logged (some m) = refl
  keep-Logged none = elim (Bool-cases (refused c key db)) [
    | inl no_room ↦
        rw (create-refused c (some sender) user content now key db no_room, resume) (inr refl)
    | inr room ↦
        rw (create-accepted c (some sender) user content now key db valid room, resume)
          (Holds-with_message db ms c (some sender) user content now key holds valid room)
  ]

  look-Logged :
      (key' : Option ClientMessageId)
      → Logged ms db (
          (find_existing sqlalchemy_conversation_repository sqlalchemy_message_repository c key'
              >>= keep)
            db)
  unfolding find_existing find_by_client_message_id
  look-Logged none = keep-Logged none
  look-Logged (some k) =
      after_query (Logged ms db) (read_keyed c k) keep db (λ existing e. keep-Logged existing)
        (λ e h. inl refl)

  post-Logged : Logged ms db (post c sender content key now db)
  unfolding from_user get keep
  post-Logged =
      after_participant (Logged ms db) (read_active c) c sender db (λ e. inl refl)
        (λ conversation.
          find_existing sqlalchemy_conversation_repository sqlalchemy_message_repository c key
          >>= keep)
        (λ conversation found member. look-Logged key)

  -- On a table that is a log of well-formed messages, the newest first and with no client id twice
  -- in a conversation, and whatever comes of a user's post of valid content (a new message, a
  -- repeat, a stranger, a conversation that is gone, a row that is refused): the table stays such a
  -- log, and holds what it held, with the message that is returned as new, if one is, in front.
  pub write_from_user-HoldsAfter : HoldsAfter ms (write_from_user c sender content key now db)
  unfolding write_from_user transaction settle
  write_from_user-HoldsAfter = go (post c sender content key now db) post-Logged
    where
      go : (r : Attempt (Message × Bool) × Database) → Logged ms db r → HoldsAfter ms (settle db r)
      go (ok (m, true), db') h = h
      go (ok (m, false), db') h = subst (λ d. Holds d ms) (sym h) holds
      go (err e, db') (inl same) =
          subst (λ (d : Database). Holds (record db { next_message_id = d.next_message_id }) ms)
            (sym same) holds
      go (err e, db') (inr skipped) =
          subst (λ (d : Database). Holds (record db { next_message_id = d.next_message_id }) ms)
            (sym skipped) (Holds-skip_number db ms holds)
