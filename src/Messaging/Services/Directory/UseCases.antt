-- ===== src/Messaging/Services/Directory/UseCases.antt =====
-- That each use case on conversations implements the directory.
use dizzchat.Prelude.{
  ◌≡◌, refl, ◌∙◌, true, false, ◌||◌, Option, none, some, arith, ◌==◌, ==_iff, any, is_some,
  Bool-cases, Option-cases, Result-cases, inl, inr,
}
use dizzchat.Text.{Text}
use dizzchat.Errors.{Attempt}
use dizzchat.Storage.Rows.{Database}
use dizzchat.Storage.Session.{query}
use dizzchat.Storage.Conversations
use dizzchat.Storage.Conversations.{
  is_row, is_active_row, is_member_row, read_active, read_any, to_domain, updated_row, get,
  get_including_deleted, sqlalchemy_conversation_repository,
}
use dizzchat.Storage.Conversations.Consistency.{IsConsistent}
use dizzchat.Messaging.Conversation
use dizzchat.Messaging.Conversation.{
  Uuid, Time, Conversation, ConversationId, OwnerId, ParticipantId, conversation_title,
  ensure_owned_by, is_participant,
}
use dizzchat.Messaging.Services.CreateConversation
use dizzchat.Messaging.Services.RenameConversation
use dizzchat.Messaging.Services.DeleteConversation
use dizzchat.Messaging.Services.RestoreConversation
use dizzchat.Messaging.Services.AddParticipant
use dizzchat.Messaging.Services.RemoveParticipant
use dizzchat.Messaging.Services.Tables.{
  to_create, to_rename, to_delete, to_restore, to_add, to_remove,
}
use dizzchat.Messaging.Services.Directory.{answer}
use dizzchat.Messaging.Services.Directory.View.{
  view, same_directory, any-filter_member, find-any, with_member-known, with_member-new,
}
use dizzchat.Messaging.Services.Directory.Reads.{
  Implements, Implements-active, Implements-any, view-update, members,
}

module _ (db : Database) (h : IsConsistent db) where
  module _ (find : Text → Attempt (Option Uuid)) (c : ConversationId) where
    pub rename-Implements :
        (o : OwnerId) (title : Text) (now : Time)
        → Implements
            (answer find (to_rename c o title now) (view db))
            db
            (RenameConversation.execute sqlalchemy_conversation_repository c o title now db)
    unfolding answer RenameConversation.execute get ensure_owned_by Conversation.rename
        Conversations.update
    rename-Implements o title now = Implements-active db h c _ _ λ row found there.
        elim (Bool-cases (row.owner_id == o)) [
          | inr other ↦ rw other (refl, refl)
          | inl own ↦ elim (Result-cases (conversation_title title)) [
            | inl (e, bad) ↦ rw own (rw bad (refl, refl))
            | inr (t, good) ↦
                rw own (rw good (view-update db h c t now row.deleted_at false row found there))
          ]
        ]

    pub delete-Implements :
        (o : OwnerId) (now : Time)
        → Implements
            (answer find (to_delete c o now) (view db))
            db
            (DeleteConversation.execute sqlalchemy_conversation_repository c o now db)
    unfolding answer DeleteConversation.execute get ensure_owned_by Conversation.delete
        Conversations.update
    delete-Implements o now = Implements-active db h c _ _ λ row found there.
        elim (Bool-cases (row.owner_id == o)) [
          | inr other ↦ rw other (refl, refl)
          | inl own ↦
              rw own (rw there (view-update db h c row.title now (some now) true row found refl))
        ]

    pub add_participant-Implements :
        (lookup : Text → Database → Attempt (Option Uuid)) (o : OwnerId) (email : Text) (now : Time)
        → Implements (answer (λ e. lookup e db) (to_add c o email now) (view db)) db (
            AddParticipant.execute sqlalchemy_conversation_repository
              (record { find_id_by_email = λ e. query (lookup e) })
              c
              o
              email
              now
              db)
    unfolding answer AddParticipant.execute get ensure_owned_by AddParticipant.record_membership
        Conversation.add_participant Conversations.add_participant is_participant
    add_participant-Implements lookup o email now = Implements-active db h c _ _ λ row found there.
        elim (Bool-cases (row.owner_id == o)) [
          | inr other ↦ rw other (refl, refl)
          | inl own ↦ elim (Result-cases (lookup email db)) [
            | inl (e, bad) ↦ rw own (rw bad (refl, refl))
            | inr (resolved, good) ↦ elim (Option-cases resolved) [
              | inl nobody ↦ rw own (rw good (rw nobody (refl, refl)))
              | inr (u, someone) ↦
                  let listed = members db h c u row found in
                  rw own (
                    rw good (
                      rw someone (elim (Bool-cases (any (is_member_row c u) db.participants)) [
                        | inl known ↦ rw (listed ∙ known) (with_member-known c u db known)
                        | inr fresh ↦
                            let exists = find-any c db.conversations row found in
                            rw (listed ∙ fresh) (rw fresh (rw exists (with_member-new c u now db)))
                      ])))
            ]
          ]
        ]

    pub remove_participant-Implements :
        (actor p : ParticipantId)
        → Implements
            (answer find (to_remove c actor p) (view db))
            db
            (RemoveParticipant.execute sqlalchemy_conversation_repository c actor p db)
    unfolding answer RemoveParticipant.execute get Conversation.remove_participant
        Conversations.remove_participant is_participant
    remove_participant-Implements actor p = Implements-active db h c _ _ λ row found there.
        elim (Bool-cases (row.owner_id == actor || actor == p)) [
          | inr may_not ↦ rw may_not (refl, refl)
          | inl may ↦ elim (Bool-cases (p == row.owner_id)) [
            | inl owner ↦ rw may (rw owner (refl, refl))
            | inr other ↦
                let listed = members db h c p row found in
                elim (Bool-cases (any (is_member_row c p) db.participants)) [
                  | inr stranger ↦
                      rw may (rw other (rw stranger (rw (listed ∙ stranger) (refl, refl))))
                  | inl member ↦ rw may (
                      rw other (
                        rw member (
                          rw (listed ∙ member) (
                            same_directory _ _ (λ k. refl)
                              (λ k v. any-filter_member c k p v db.participants)))))
                ]
          ]
        ]

    pub restore-Implements :
        (o : OwnerId) (now : Time)
        → Implements
            (answer find (to_restore c o now) (view db))
            db
            (RestoreConversation.execute sqlalchemy_conversation_repository c o now db)
    unfolding answer RestoreConversation.execute get_including_deleted ensure_owned_by
        Conversation.restore Conversations.update
    restore-Implements o now = Implements-any db h c _ _ λ row found.
        elim (Bool-cases (row.owner_id == o)) [
          | inr other ↦ rw other (refl, refl)
          | inl own ↦ elim (Bool-cases (is_some row.deleted_at)) [
            | inl deleted ↦
                rw own (rw deleted (view-update db h c row.title now none false row found refl))
            | inr there ↦ rw own (
                rw there (
                  view-update db h c row.title row.updated_at row.deleted_at false row found there))
          ]
        ]

    pub create-Implements :
        (o : OwnerId) (title : Text) (now : Time)
        → any (is_row c) db.conversations ≡ false
        → Implements
            (answer find (to_create o title c now) (view db))
            db
            (CreateConversation.execute sqlalchemy_conversation_repository o title c now db)
    unfolding answer CreateConversation.execute Conversation.start Conversations.create
    create-Implements o title now fresh = elim (Result-cases (conversation_title title)) [
      | inl (e, bad) ↦ rw bad (refl, refl)
      | inr (t, good) ↦ rw good (
          rw fresh (
            same_directory _ _ (λ k. ground (arith, ==_iff k c, ==_iff c k))
              (λ k v. ground (arith, ==_iff k c, ==_iff c k, ==_iff v o, ==_iff o v))))
    ]
