-- ===== src/Messaging/Services/Directory.antt =====
-- What the use cases on conversations promise, without tables: a directory says which conversations
-- there are, whose they are and under which title, which of them are deleted, and who takes part.
-- It has no order of rows, no row twice and no times.
pub mod View
pub mod Reads
pub mod UseCases
pub mod Refined
use dizzchat.Prelude.{
  Bool, true, false, ◌&&◌, ◌||◌, not, Option, none, some, ok, err, ◌==◌, if◌then◌else◌, require,
  guard, ◌>>=◌, ◌>>◌,
}
use dizzchat.Text.{Text}
use dizzchat.Errors.{
  Attempt, Error, conversation_error, conversation_not_found, not_conversation_owner,
  not_conversation_participant, cannot_remove_conversation_owner, participant_user_not_found,
}
use dizzchat.Messaging.Conversation.{
  Uuid, ConversationId, OwnerId, ParticipantId, conversation_title,
}
use dizzchat.Messaging.Services.Tables.{
  Request, to_create, to_rename, to_delete, to_restore, to_add, to_remove,
}

pub record Entry : Type 0 where
  pub owner : Uuid
  pub title : Text
  pub is_deleted : Bool

pub record Directory : Type 0 where
  pub entry : ConversationId → Option Entry
  pub takes_part : ConversationId → Uuid → Bool

abbrev pub with_entry : ConversationId → Entry → Directory → Directory
with_entry c e d = record d { entry = λ k. if k == c then some e else d.entry k }

abbrev pub with_member : ConversationId → Uuid → Directory → Directory
with_member c u d = record d { takes_part = λ k v. k == c && v == u || d.takes_part k v }

abbrev pub without_member : ConversationId → Uuid → Directory → Directory
without_member c u d = record d { takes_part = λ k v. d.takes_part k v && not (k == c && v == u) }

abbrev pub any_entry : ConversationId → Directory → Attempt Entry
any_entry c d = require (d.entry c) (conversation_error (conversation_not_found c))

abbrev pub not_deleted : ConversationId → Entry → Attempt Entry
not_deleted c e = if e.is_deleted then err (conversation_error (conversation_not_found c)) else ok e

abbrev pub active_entry : ConversationId → Directory → Attempt Entry
active_entry c d = any_entry c d >>= not_deleted c

-- What follows a look at an entry.
abbrev pub on_entry : Attempt Entry → (Entry → Attempt Directory) → Attempt Directory
on_entry found next = found >>= next

abbrev pub owned : OwnerId → Entry → Attempt (Unit {0})
owned o e = guard (e.owner == o) (conversation_error not_conversation_owner)

-- What each request makes of a directory, or how it is refused; `lookup` finds a user by an address.
module _ (lookup : Text → Attempt (Option Uuid)) where
  unfoldable pub answer : Request → Directory → Attempt Directory
  answer (to_create o title fresh now) d = do
    checked ← conversation_title title
    ok (
        with_member fresh o
          (with_entry fresh (record { owner = o; title = checked; is_deleted = false }) d))
  answer (to_rename c o title now) d = do
    e ← active_entry c d
    owned o e
    checked ← conversation_title title
    ok (with_entry c (record e { title = checked }) d)
  answer (to_delete c o now) d = do
    e ← active_entry c d
    owned o e
    ok (with_entry c (record e { is_deleted = true }) d)
  answer (to_restore c o now) d = do
    e ← any_entry c d
    owned o e
    ok (with_entry c (record e { is_deleted = false }) d)
  answer (to_add c o email now) d = do
    e ← active_entry c d
    owned o e
    found ← lookup email
    u ← require found (conversation_error (participant_user_not_found email))
    ok (with_member c u d)
  answer (to_remove c actor p) d = do
    e ← active_entry c d
    guard (e.owner == actor || actor == p) (conversation_error not_conversation_owner)
    guard (not (p == e.owner)) (conversation_error cannot_remove_conversation_owner)
    guard (d.takes_part c p) (conversation_error not_conversation_participant)
    ok (without_member c p d)

-- The directory after a request: as it was, if the request is refused.
abbrev pub settled : Directory → Attempt Directory → Directory
settled d (ok d') = d'
settled d (err e) = d
