-- ===== src/Messaging/Services/Directory/Refined.antt =====
-- What a request does to the directory that the tables hold.
use dizzchat.Prelude.{◌≡◌, refl, false, Option, any, Result, ok, err}
use dizzchat.Text.{Text}
use dizzchat.Errors.{Attempt, Error}
use dizzchat.Storage.Rows.{Database}
use dizzchat.Storage.Session.{transaction, settle}
use dizzchat.Storage.Conversations.{is_row}
use dizzchat.Storage.Conversations.Consistency.{IsConsistent}
use dizzchat.Messaging.Conversation.{Uuid}
use dizzchat.Messaging.Services.Tables.{
  Request, to_create, to_rename, to_delete, to_restore, to_add, to_remove, served,
}
use dizzchat.Messaging.Services.Directory.{Directory, answer, settled}
use dizzchat.Messaging.Services.Directory.View.{view}
use dizzchat.Messaging.Services.Directory.Reads.{Implements}
use dizzchat.Messaging.Services.Directory.UseCases.{
  rename-Implements, delete-Implements, restore-Implements, create-Implements,
  add_participant-Implements, remove_participant-Implements,
}

-- The key of a new conversation is not taken.
abbrev pub IsFresh : Request → Database → Type 0
IsFresh (to_create o title fresh now) db = any (is_row fresh) db.conversations ≡ false
IsFresh (to_rename c o title now) db = Unit
IsFresh (to_delete c o now) db = Unit
IsFresh (to_restore c o now) db = Unit
IsFresh (to_add c o email now) db = Unit
IsFresh (to_remove c actor p) db = Unit

settled-Implements :
    {A : Type 0} (a : Attempt Directory) (db : Database) (r : Result Error A × Database)
    → Implements a db r
    → view (settle db r).1 ≡ settled (view db) a
unfolding settle
settled-Implements (ok d) db (ok a, db') is = is
settled-Implements (err e) db (err e', db') is = refl
settled-Implements (ok d) db (err e, db') is = absurd is
settled-Implements (err e) db (ok a, db') is = absurd is

-- On consistent tables every request, whether it is refused or not, does to the tables what its
-- answer does to the directory that they hold, if the key of a conversation that is made is not
-- taken: seen as a directory, the tables after the request are the answer, or as they were where
-- the directory refuses it.
pub served-answer :
    (find : Text → Database → Attempt (Option Uuid)) (request : Request) (db : Database)
    → IsConsistent db
    → IsFresh request db
    → view (served find request db)
      ≡ settled (view db) (answer (λ email. find email db) request (view db))
unfolding served transaction
served-answer find (to_create o title fresh now) db h new =
    settled-Implements _ db _ (create-Implements db h (λ e. find e db) fresh o title now new)
served-answer find (to_rename c o title now) db h new =
    settled-Implements _ db _ (rename-Implements db h (λ e. find e db) c o title now)
served-answer find (to_delete c o now) db h new =
    settled-Implements _ db _ (delete-Implements db h (λ e. find e db) c o now)
served-answer find (to_restore c o now) db h new =
    settled-Implements _ db _ (restore-Implements db h (λ e. find e db) c o now)
served-answer find (to_add c o email now) db h new =
    settled-Implements _ db _ (add_participant-Implements db h (λ e. find e db) c find o email now)
served-answer find (to_remove c actor p) db h new =
    settled-Implements _ db _ (remove_participant-Implements db h (λ e. find e db) c actor p)
