-- ===== src/Tests/Migrations.antt =====
-- The theorems on the migrations at concrete inputs: tables of the second revision, with a
-- conversation that was deleted.
use dizzchat.Prelude.{ℕ, ◌≡◌, ◌⊎◌, refl, none, some, [], ◌∷◌, ok}
use dizzchat.Text.{codes, strip}
use dizzchat.Messaging.Conversation.{conversation_title}
use dizzchat.Storage.Rows.{Database}
use dizzchat.Storage.Conversations.Consistency.{IsConsistent}
use dizzchat.Migrations.{
  Schema, at_conversations, at_message_role, at_conversation_participants, Tables, SentMessage,
  add_message_role, add_client_message_id, add_conversation_participants,
}
use dizzchat.Migrations.Steps.{upgrade, downgrade, upgrade_head, downgrade-upgrade}
use dizzchat.Migrations.Upgraded.{upgrade_head-IsConsistent, conversations_at}
use dizzchat.Migrations.Replicas.{
  Fleet, migrating, finished, started, Step, Reached, at_start, after_step, Reached-upgraded,
  committed_by, locked, failed_by,
}

abbrev old : Tables SentMessage
old = record {
  users =
      record { id = 1; email = codes "a@x.io"; password_hash = codes "#"; created_at = 10 } ∷ [];
  refresh_tokens = [];
  conversations =
      record {
        id = 7;
        owner_id = 1;
        title = codes "team";
        created_at = 90;
        updated_at = 95;
        deleted_at = some 95;
      }
      ∷ [];
  messages =
      record { id = 1; conversation_id = 7; sender_id = 1; content = codes "hi"; created_at = 91 }
      ∷ [];
  next_message_id = 2;
}

abbrev new : Database
new = record {
  users = old.users;
  refresh_tokens = [];
  conversations = old.conversations;
  participants = record { conversation_id = 7; user_id = 1; joined_at = 90 } ∷ [];
  messages =
      record {
        id = 1;
        conversation_id = 7;
        sender_id = some 1;
        role = codes "user";
        content = codes "hi";
        created_at = 91;
        client_message_id = none;
      }
      ∷ [];
  next_message_id = 2;
}

upgrade_head_lem : upgrade_head (at_conversations old) ≡ ok (at_conversation_participants new)
unfolding upgrade_head upgrade add_message_role add_client_message_id add_conversation_participants
upgrade_head_lem = refl

upgrade_head-IsConsistent_example :
    (db : Database) × (upgrade_head (at_conversations old) ≡ ok (at_conversation_participants db))
    × IsConsistent db
    × (db.conversations ≡ conversations_at (at_conversations old))
unfolding conversation_title strip
upgrade_head-IsConsistent_example =
    upgrade_head-IsConsistent (at_conversations old) ((refl, tt), (refl, tt))

downgrade-upgrade_example :
    downgrade (at_message_role (add_message_role old)) ≡ some (ok (at_conversations old))
unfolding upgrade
downgrade-upgrade_example =
    downgrade-upgrade (at_conversations old) (at_message_role (add_message_role old)) refl

-- The first replica is stopped while it migrates, and the second one, which then has the lock, is at
-- the latest revision already.
abbrev fleet : Fleet
fleet =
    committed_by 2 (at_conversation_participants new)
      (locked 2 (failed_by 1 (locked 1 (started (at_conversation_participants new)))))

fleet-Reached : Reached (at_conversation_participants new) fleet
unfolding upgrade
fleet-Reached =
    after_step
      (after_step
        (after_step (after_step at_start (Step.acquire 1 refl refl)) (Step.roll_back 1 refl))
        (Step.acquire 2 refl refl))
      (Step.commit 2 refl refl)

Reached-upgraded_example :
    ((p q : ℕ) (t u : Schema) → fleet.phase p ≡ migrating t → fleet.phase q ≡ migrating u → q ≡ p)
    × ((fleet.committed ≡ at_conversation_participants new)
        ⊎ (upgrade_head (at_conversation_participants new) ≡ ok fleet.committed))
    × ((p : ℕ)
        → fleet.phase p ≡ finished
        → upgrade_head (at_conversation_participants new) ≡ ok fleet.committed)
Reached-upgraded_example = Reached-upgraded (at_conversation_participants new) fleet fleet-Reached
