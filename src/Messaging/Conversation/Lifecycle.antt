-- ===== src/Messaging/Conversation/Lifecycle.antt =====
-- Deleting and restoring a conversation.
use dizzchat.Prelude.{◌≡◌, true, false, arith}
use dizzchat.Messaging.Conversation.{Conversation, Time, delete, restore, is_deleted}

-- Deleting twice is deleting once, at the first time, and a deleted conversation is restored by one
-- call to what it was but for the time of the change; restoring twice is restoring once.
pub delete-restore :
    (now later : Time) (c : Conversation)
    → (delete later (delete now c) ≡ delete now c)
      × (restore later (restore now c) ≡ restore now c)
      × (is_deleted (delete now c) ≡ true)
      × (is_deleted (restore now c) ≡ false)
      × ((restore later (delete now c)).title ≡ c.title)
      × ((restore later (delete now c)).participant_ids ≡ c.participant_ids)
      × ((restore later (delete now c)).updated_at ≡ later)
unfolding delete restore is_deleted
delete-restore now later c = ground arith
