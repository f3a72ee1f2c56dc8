-- ===== src/Messaging/Services/Kept.antt =====
-- That each use case on conversations keeps the tables consistent.
use dizzchat.Prelude.{
  ◌≡◌, sym, subst, Bool, true, false, ◌&&◌, ◌||◌, Option, none, some, List, [], ◌∷◌, arith, ◌==◌,
  ==_iff, any, All, find?, ok, err, require, guard, Bool-cases, Option-cases, Result-cases, inl,
  inr, Result,
}
use dizzchat.Text.{Text}
use dizzchat.Errors.{
  Attempt, Error, conversation_error, conversation_not_found, not_conversation_owner,
}
use dizzchat.Storage.Session.{Action, ◌>>=◌, ◌>>◌, pure, lift, query, resume, after_query}
use dizzchat.Storage.Rows.{ConversationRow, Database}
use dizzchat.Storage.Conversations.{
  sqlalchemy_conversation_repository, is_row, is_active_row, get, get_including_deleted,
  read_active, read_any,
}
use dizzchat.Storage.Conversations.Reads.{any_of_find, read_active-row, read_any-row, to_domain-row}
use dizzchat.Storage.Conversations.Consistency.{
  IsConsistent, IdsUnique, create-IsConsistent, add_participant-IsConsistent,
}
use dizzchat.Storage.Conversations.Updates.{update-IsConsistent, remove_participant-IsConsistent}
use dizzchat.Messaging.Conversation
use dizzchat.Messaging.Conversation.{
  Uuid, Time, Conversation, ConversationId, OwnerId, ParticipantId, conversation_title, start,
  rename, delete, restore,
}
use dizzchat.Messaging.Conversation.Title.{conversation_title_accepted}
use dizzchat.Messaging.Ports.{UserDirectory}
use dizzchat.Messaging.Services.EnsureConversationAccess.Gate.{after_owner}
use dizzchat.Messaging.Services.CreateConversation
use dizzchat.Messaging.Services.RenameConversation
use dizzchat.Messaging.Services.DeleteConversation
use dizzchat.Messaging.Services.RestoreConversation
use dizzchat.Messaging.Services.AddParticipant
use dizzchat.Messaging.Services.RemoveParticipant

-- The tables that a call leaves are consistent.
abbrev pub Keeps : {A : Type 0} → Result Error A × Database → Type 0
Keeps r = IsConsistent r.1

kept :
    {A B : Type 0} (b : B) (r : Result Error A × Database)
    → Keeps r
    → Keeps (resume (λ _. pure b) r)
kept b (ok a, db) h = h
kept b (err e, db) h = h

stable :
    (value : Text) {title : Text}
    → conversation_title value ≡ ok title
    → conversation_title title ≡ ok title
stable value h = (conversation_title_accepted value h).3

-- A title that was read from the tables.
read_title :
    (c : ConversationId) (db : Database) (conversation : Conversation)
    → read_active c db ≡ ok (some conversation)
    → conversation_title conversation.title ≡ ok conversation.title
read_title c db conversation h =
    let (row, found, read) = read_active-row c db conversation h in
    stable row.title (to_domain-row db.participants row conversation read).0

read_any_title :
    (c : ConversationId) (db : Database) (conversation : Conversation)
    → read_any c db ≡ ok (some conversation)
    → conversation_title conversation.title ≡ ok conversation.title
read_any_title c db conversation h =
    let (row, found, read) = read_any-row c db conversation h in
    stable row.title (to_domain-row db.participants row conversation read).0

delete_title : (now : Time) (c : Conversation) → (delete now c).title ≡ c.title
unfolding delete
delete_title now c = ground arith

restore_title : (now : Time) (c : Conversation) → (restore now c).title ≡ c.title
unfolding restore
restore_title now c = ground arith

-- Where keys are unique, the conversation that is found is the only one with its key.
other_owner :
    (c : ConversationId) (p : ParticipantId) (rows : List ConversationRow) (row : ConversationRow)
    → IdsUnique rows
    → find? (is_active_row c) rows ≡ some row
    → (row.owner_id == p) ≡ false
    → All (λ r. (r.id == c && r.owner_id == p) ≡ false) rows
other_owner c p [] row unique found other = tt
other_owner c p (r ∷ rows) row unique found other = elim (Bool-cases (is_active_row c r)) [
  | inl here ↦ (ground arith, no_other c p rows (ground (arith, ==_iff r.id c)))
  | inr elsewhere ↦
      let later : find? (is_active_row c) rows ≡ some row = ground arith in
      (
        ground (arith, ==_iff r.id c, any_of_find c rows row later),
        other_owner c p rows row unique.1 later other,
      )
]
  where
    no_other :
        (c : ConversationId) (p : ParticipantId) (rows : List ConversationRow)
        → any (is_row c) rows ≡ false
        → All (λ r. (r.id == c && r.owner_id == p) ≡ false) rows
    no_other c p [] none_left = tt
    no_other c p (r ∷ rows) none_left = (ground arith, no_other c p rows (ground arith))

not_owner :
    (p : ParticipantId) (c d : Conversation)
    → Conversation.remove_participant p c ≡ ok d
    → (c.owner_id == p) ≡ false
unfolding Conversation.remove_participant
not_owner p c d h = ground arith

module _ (db : Database) (h : IsConsistent db) where
  pub create-Keeps :
      (o : OwnerId) (title : Text) (fresh : Uuid) (now : Time)
      → Keeps (CreateConversation.execute sqlalchemy_conversation_repository o title fresh now db)
  unfolding CreateConversation.execute start
  create-Keeps o title fresh now = elim (Result-cases (conversation_title title)) [
    | inl (e, bad) ↦ rw (bad, CreateConversation.execute) h
    | inr (t, good) ↦
        rw (good, CreateConversation.execute)
          (kept _ _ (create-IsConsistent db h fresh o t now (stable title good)))
  ]

  pub rename-Keeps :
      (c : ConversationId) (o : OwnerId) (title : Text) (now : Time)
      → Keeps (RenameConversation.execute sqlalchemy_conversation_repository c o title now db)
  unfolding RenameConversation.execute rename get
  rename-Keeps c o title now =
      after_owner Keeps (read_active c) c o db (λ e. h) _
        λ conversation found owner. elim (Result-cases (conversation_title title)) [
          | inl (e, bad) ↦ rw bad h
          | inr (t, good) ↦ rw good (
              kept _ _ (
                update-IsConsistent db h conversation.id t now conversation.deleted_at
                  (stable title good)))
        ]

  pub delete-Keeps :
      (c : ConversationId) (o : OwnerId) (now : Time)
      → Keeps (DeleteConversation.execute sqlalchemy_conversation_repository c o now db)
  unfolding DeleteConversation.execute delete get
  delete-Keeps c o now =
      after_owner Keeps (read_active c) c o db (λ e. h) _
        λ conversation found owner. update-IsConsistent db h _ _ _ _ (
          subst (λ t. conversation_title t ≡ ok t) (sym (delete_title now conversation))
            (read_title c db conversation found))

  pub restore-Keeps :
      (c : ConversationId) (o : OwnerId) (now : Time)
      → Keeps (RestoreConversation.execute sqlalchemy_conversation_repository c o now db)
  unfolding RestoreConversation.execute restore get_including_deleted
  restore-Keeps c o now =
      after_owner Keeps (read_any c) c o db (λ e. h) _
        λ conversation found owner. kept _ _ (
          update-IsConsistent db h _ _ _ _ (
            subst (λ t. conversation_title t ≡ ok t) (sym (restore_title now conversation))
              (read_any_title c db conversation found)))

  -- A block that first reads a conversation.
  after_found :
      (c : ConversationId) {A : Type 0} (k : Conversation → Action Database A)
      → ((conversation : Conversation)
          → read_active c db ≡ ok (some conversation)
          → Keeps (k conversation db))
      → Keeps (
          (query (read_active c) >>= λ found.
          lift (require found (conversation_error (conversation_not_found c))) >>= k)
            db)
  after_found c k returns =
      after_query Keeps (read_active c)
        (λ found. lift (require found (conversation_error (conversation_not_found c))) >>= k) db go
        (λ e raised. h)
    where
      go :
          (found : Option Conversation)
          → read_active c db ≡ ok found
          → Keeps ((lift (require found (conversation_error (conversation_not_found c))) >>= k) db)
      go none e = h
      go (some conversation) e = returns conversation e

  removed-Keeps :
      (c : ConversationId) (actor p : ParticipantId) (conversation : Conversation)
      → read_active c db ≡ ok (some conversation)
      → Keeps (
          (lift (
                guard
                  (conversation.owner_id == actor || actor == p)
                  (conversation_error not_conversation_owner))
              >> (lift (Conversation.remove_participant p conversation)
                  >> sqlalchemy_conversation_repository.remove_participant c p))
            db)
  removed-Keeps c actor p conversation found =
      elim (Bool-cases (conversation.owner_id == actor || actor == p)) [
        | inr may_not ↦ rw may_not h
        | inl may ↦ elim (Result-cases (Conversation.remove_participant p conversation)) [
          | inl (e, refused) ↦ rw may (rw refused h)
          | inr (d, removed) ↦
              let (row, there, read) = read_active-row c db conversation found in
              let same = (to_domain-row db.participants row conversation read).2 in
              let other : (row.owner_id == p) ≡ false =
                subst (λ o. (o == p) ≡ false) same (not_owner p conversation d removed) in
              rw may (
                rw removed (
                  remove_participant-IsConsistent db h c p
                    (other_owner c p db.conversations row h.ids_unique there other)))
        ]
      ]

  pub remove_participant-Keeps :
      (c : ConversationId) (actor p : ParticipantId)
      → Keeps (RemoveParticipant.execute sqlalchemy_conversation_repository c actor p db)
  unfolding RemoveParticipant.execute get
  remove_participant-Keeps c actor p = after_found c _ (removed-Keeps c actor p)

  membership-Keeps :
      (users : UserDirectory Database) (c : ConversationId) (u : ParticipantId) (is_new : Bool)
      (now : Time)
      → Keeps (
          AddParticipant.record_membership sqlalchemy_conversation_repository users c u is_new now
            db)
  unfolding AddParticipant.record_membership
  membership-Keeps users c u true now = add_participant-IsConsistent db h c u now
  membership-Keeps users c u false now = h

  -- The directory of users only reads.
  pub add_participant-Keeps :
      (find : Text → Database → Attempt (Option Uuid)) (c : ConversationId) (o : OwnerId)
      (email : Text) (now : Time)
      → Keeps (
          AddParticipant.execute sqlalchemy_conversation_repository
            (record { find_id_by_email = λ e. query (find e) })
            c
            o
            email
            now
            db)
  unfolding AddParticipant.execute get
  add_participant-Keeps find c o email now =
      after_owner Keeps (read_active c) c o db (λ e. h) _
        λ conversation found owner.
          after_query Keeps (find email) _ db
            (λ resolved looked_up. elim (Option-cases resolved) [
              | inl e ↦ rw e h
              | inr (u, e) ↦ rw e (
                  kept _ _ (
                    membership-Keeps (record { find_id_by_email = λ e'. query (find e') }) c u _
                      now))
            ])
            (λ e looked_up. h)
