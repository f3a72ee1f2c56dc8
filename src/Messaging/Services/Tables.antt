-- ===== src/Messaging/Services/Tables.antt =====
-- What the tables hold after any requests that change conversations, each of them a unit of work on
-- the repository that the application gives to the use cases. The directory of users only reads.
use dizzchat.Prelude.{◌≡◌, Option, List, [], ◌∷◌, ok, err, Result}
use dizzchat.Text.{Text}
use dizzchat.Errors.{Attempt, Error}
use dizzchat.Storage.Session.{Action, query, settle, transaction}
use dizzchat.Storage.Rows.{Database, empty_database}
use dizzchat.Storage.Conversations.{sqlalchemy_conversation_repository, read_any}
use dizzchat.Storage.Conversations.Consistency.{IsConsistent}
use dizzchat.Messaging.Conversation.{
  Uuid, Time, Conversation, ConversationId, OwnerId, ParticipantId,
}
use dizzchat.Messaging.Ports.{UserDirectory}
use dizzchat.Messaging.Services.CreateConversation
use dizzchat.Messaging.Services.RenameConversation
use dizzchat.Messaging.Services.DeleteConversation
use dizzchat.Messaging.Services.RestoreConversation
use dizzchat.Messaging.Services.AddParticipant
use dizzchat.Messaging.Services.RemoveParticipant
use dizzchat.Messaging.Conversation.Membership.{IsWellFormed}
use dizzchat.Storage.Conversations.Readable.{AllIn, readable, empty-IsConsistent}
use dizzchat.Messaging.Services.Kept.{
  Keeps, create-Keeps, rename-Keeps, delete-Keeps, restore-Keeps, remove_participant-Keeps,
  add_participant-Keeps,
}

-- A request that changes conversations, with the time at which it is served; `fresh` is the UUID
-- that `uuid4` makes.
pub data Request : Type 0 where
  to_create : OwnerId → Text → Uuid → Time → Request
  to_rename : ConversationId → OwnerId → Text → Time → Request
  to_delete : ConversationId → OwnerId → Time → Request
  to_restore : ConversationId → OwnerId → Time → Request
  to_add : ConversationId → OwnerId → Text → Time → Request
  to_remove : ConversationId → ParticipantId → ParticipantId → Request

module _ (find : Text → Database → Attempt (Option Uuid)) where
  abbrev users : UserDirectory Database
  users = record { find_id_by_email = λ email. query (find email) }

  -- The tables after a request, which is a unit of work.
  unfoldable pub served : Request → Database → Database
  served (to_create o title fresh now) db =
      (transaction (CreateConversation.execute sqlalchemy_conversation_repository o title fresh now)
        db).1
  served (to_rename c o title now) db =
      (transaction (RenameConversation.execute sqlalchemy_conversation_repository c o title now)
        db).1
  served (to_delete c o now) db =
      (transaction (DeleteConversation.execute sqlalchemy_conversation_repository c o now) db).1
  served (to_restore c o now) db =
      (transaction (RestoreConversation.execute sqlalchemy_conversation_repository c o now) db).1
  served (to_add c o email now) db =
      (transaction (AddParticipant.execute sqlalchemy_conversation_repository users c o email now)
        db).1
  served (to_remove c actor p) db =
      (transaction (RemoveParticipant.execute sqlalchemy_conversation_repository c actor p) db).1

  transaction-Keeps :
      {A : Type 0} (m : Action Database A) (db : Database)
      → IsConsistent db
      → Keeps (m db)
      → IsConsistent (transaction m db).1
  unfolding transaction settle
  transaction-Keeps {A} m db h k = go (m db) k
    where
      go : (r : Result Error A × Database) → Keeps r → IsConsistent (settle db r).1
      go (ok a, db') k = k
      go (err e, db') k = record {
        ids_unique = h.ids_unique;
        members_unique = h.members_unique;
        titles = h.titles;
        linked = h.linked;
        owners = h.owners;
      }

  pub served_all : List Request → Database → Database
  served_all [] db = db
  served_all (request ∷ requests) db = served_all requests (served request db)

  -- Every request, refused ones included, keeps the tables consistent: keys stay unique, each title
  -- can be read back, each membership is of a conversation that exists, and each conversation has its
  -- owner among its participants.
  served-IsConsistent :
      (request : Request) (db : Database) → IsConsistent db → IsConsistent (served request db)
  unfolding served
  served-IsConsistent (to_create o title fresh now) db h =
      transaction-Keeps _ db h (create-Keeps db h o title fresh now)
  served-IsConsistent (to_rename c o title now) db h =
      transaction-Keeps _ db h (rename-Keeps db h c o title now)
  served-IsConsistent (to_delete c o now) db h =
      transaction-Keeps _ db h (delete-Keeps db h c o now)
  served-IsConsistent (to_restore c o now) db h =
      transaction-Keeps _ db h (restore-Keeps db h c o now)
  served-IsConsistent (to_add c o email now) db h =
      transaction-Keeps _ db h (add_participant-Keeps db h find c o email now)
  served-IsConsistent (to_remove c actor p) db h =
      transaction-Keeps _ db h (remove_participant-Keeps db h c actor p)

  served_all-IsConsistent :
      (requests : List Request) (db : Database)
      → IsConsistent db
      → IsConsistent (served_all requests db)
  unfolding served_all
  served_all-IsConsistent [] db h = h
  served_all-IsConsistent (request ∷ requests) db h =
      served_all-IsConsistent requests (served request db) (served-IsConsistent request db h)

  -- Whatever requests were served since the database was empty, in any order and whether refused or
  -- not, with a directory of users that only reads: a read of a conversation, deleted or not,
  -- raises nothing; and what it returns, if anything, has its owner among its participants and no
  -- user twice.
  pub served_all-read :
      (requests : List Request) (c : ConversationId)
      → (found : Option Conversation) × (read_any c (served_all requests empty_database) ≡ ok found)
        × AllIn IsWellFormed found
  served_all-read requests c =
      readable c (served_all requests empty_database)
        (served_all-IsConsistent requests empty_database empty-IsConsistent)
