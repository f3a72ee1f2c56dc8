-- ===== src/Messaging/Services/EnsureConversationAccess/Gate.antt =====
-- The check that stands in front of what only participants, or only the owner, may do.
use dizzchat.Prelude.{
  ◌≡◌, refl, true, Option, none, some, Result, ok, err, require, Bool-cases, inl, inr, ◌==◌,
}
use dizzchat.Errors.{
  Error, conversation_error, conversation_not_found, not_conversation_participant,
  not_conversation_owner,
}
use dizzchat.Storage.Session.{Action, ◌>>=◌, ◌>>◌, lift, query, resume}
use dizzchat.Messaging.Conversation.{
  Conversation, ConversationId, ParticipantId, is_participant, ensure_participant, ensure_owned_by,
}

module _ {S A : Type 0} (Q : Result Error A × S → Type 0)
    (read : S → Result Error (Option Conversation)) (c : ConversationId) (p : ParticipantId) (s : S)
    (raised : (e : Error) → Q (err e, s)) where
  -- A block that first reads a conversation and asks that the caller take part in it.
  pub after_participant :
      (k : Conversation → Action S A)
      → ((conversation : Conversation)
          → read s ≡ ok (some conversation)
          → is_participant p conversation ≡ true
          → Q (k conversation s))
      → Q (
          (query read >>= λ found.
          lift (require found (conversation_error (conversation_not_found c))) >>= λ conversation.
          lift (ensure_participant p conversation) >> k conversation)
            s)
  unfolding ensure_participant
  after_participant k returns = go (read s) refl
    where
      go :
          (r : Result Error (Option Conversation))
          → read s ≡ r
          → Q (
              resume
                (λ found.
                  lift (require found (conversation_error (conversation_not_found c)))
                  >>= λ conversation. lift (ensure_participant p conversation) >> k conversation)
                (r, s))
      go (err e) h = raised e
      go (ok none) h = raised (conversation_error (conversation_not_found c))
      go (ok (some conversation)) h = elim (Bool-cases (is_participant p conversation)) [
        | inl member ↦ rw member (returns conversation h member)
        | inr stranger ↦ rw stranger (raised (conversation_error not_conversation_participant))
      ]

  -- A block that first reads a conversation and asks that the caller own it.
  pub after_owner :
      (k : Conversation → Action S A)
      → ((conversation : Conversation)
          → read s ≡ ok (some conversation)
          → (conversation.owner_id == p) ≡ true
          → Q (k conversation s))
      → Q (
          (query read >>= λ found.
          lift (require found (conversation_error (conversation_not_found c))) >>= λ conversation.
          lift (ensure_owned_by p conversation) >> k conversation)
            s)
  unfolding ensure_owned_by
  after_owner k returns = go (read s) refl
    where
      go :
          (r : Result Error (Option Conversation))
          → read s ≡ r
          → Q (
              resume
                (λ found.
                  lift (require found (conversation_error (conversation_not_found c)))
                  >>= λ conversation. lift (ensure_owned_by p conversation) >> k conversation)
                (r, s))
      go (err e) h = raised e
      go (ok none) h = raised (conversation_error (conversation_not_found c))
      go (ok (some conversation)) h = elim (Bool-cases (conversation.owner_id == p)) [
        | inl owned ↦ rw owned (returns conversation h owned)
        | inr other ↦ rw other (raised (conversation_error not_conversation_owner))
      ]
