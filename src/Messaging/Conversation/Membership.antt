-- ===== src/Messaging/Conversation/Membership.antt =====
-- Who takes part in a conversation.
use dizzchat.Prelude.{
  ℕ, ◌≡◌, true, false, ◌||◌, not, List, [], ◌∷◌, arith, ◌==◌, if◌then◌else◌, contains,
  without_element, contains-without_element, ok, err,
}
use dizzchat.Text.{Text}
use dizzchat.Errors.{conversation_error, not_conversation_participant}
use dizzchat.Messaging.Conversation.{
  Conversation, ConversationId, OwnerId, ParticipantId, Time, start, rename, delete, restore,
  is_participant, add_participant, remove_participant, ensure_participant,
}

-- No user is listed twice in a membership.
abbrev pub Distinct : List ℕ → Type 0
Distinct [] = Unit
Distinct (x ∷ xs) = (contains x xs ≡ false) × Distinct xs

-- The owner takes part, and the membership is a set.
pub record IsWellFormed (c : Conversation) : Type 0 where
  pub owner_takes_part : is_participant c.owner_id c ≡ true
  pub distinct : Distinct c.participant_ids

Distinct-without_element : (x : ℕ) (xs : List ℕ) → Distinct xs → Distinct (without_element x xs)
Distinct-without_element x [] h = h
Distinct-without_element x (y ∷ ys) h =
    ground (arith, Distinct-without_element x ys h.1, contains-without_element x y ys)

start-IsWellFormed :
    (id : ConversationId) (o : OwnerId) (title : Text) (now : Time)
    → IsWellFormed (start id o title now)
unfolding start is_participant
start-IsWellFormed id o title now = ground arith

rename-IsWellFormed :
    (title : Text) (now : Time) (c : Conversation)
    → IsWellFormed c
    → IsWellFormed (rename title now c)
unfolding rename is_participant
rename-IsWellFormed title now c h = ground arith

delete-IsWellFormed : (now : Time) (c : Conversation) → IsWellFormed c → IsWellFormed (delete now c)
unfolding delete is_participant
delete-IsWellFormed now c h = ground arith

restore-IsWellFormed :
    (now : Time) (c : Conversation) → IsWellFormed c → IsWellFormed (restore now c)
unfolding restore is_participant
restore-IsWellFormed now c h = ground arith

add_participant-IsWellFormed :
    (p : ParticipantId) (c : Conversation) → IsWellFormed c → IsWellFormed (add_participant p c).0
unfolding add_participant
add_participant-IsWellFormed p c h = ground (arith, h.owner_takes_part, h.distinct)

remove_participant-IsWellFormed :
    (p : ParticipantId) (c : Conversation) {d : Conversation}
    → IsWellFormed c
    → remove_participant p c ≡ ok d
    → IsWellFormed d
unfolding remove_participant
remove_participant-IsWellFormed p c h e = ground (
  arith,
  h.owner_takes_part,
  h.distinct,
  Distinct-without_element p c.participant_ids,
  contains-without_element p c.owner_id c.participant_ids,
)

-- What can become of a conversation through its methods.
pub data Reached : Conversation → Type 0 where
  started :
      (id : ConversationId) (o : OwnerId) (title : Text) (now : Time)
      → Reached (start id o title now)
  renamed :
      (title : Text) (now : Time) (c : Conversation) → Reached c → Reached (rename title now c)
  deleted : (now : Time) (c : Conversation) → Reached c → Reached (delete now c)
  restored : (now : Time) (c : Conversation) → Reached c → Reached (restore now c)
  admitted : (p : ParticipantId) (c : Conversation) → Reached c → Reached (add_participant p c).0
  removed :
      (p : ParticipantId) (c d : Conversation)
      → Reached c
      → remove_participant p c ≡ ok d
      → Reached d

-- However a conversation was started, renamed, deleted, restored and its members changed, its owner
-- takes part in it and no user is listed twice.
pub Reached-IsWellFormed : {c : Conversation} → Reached c → IsWellFormed c
Reached-IsWellFormed (started id o title now) = start-IsWellFormed id o title now
Reached-IsWellFormed (renamed title now c r) =
    rename-IsWellFormed title now c (Reached-IsWellFormed r)
Reached-IsWellFormed (deleted now c r) = delete-IsWellFormed now c (Reached-IsWellFormed r)
Reached-IsWellFormed (restored now c r) = restore-IsWellFormed now c (Reached-IsWellFormed r)
Reached-IsWellFormed (admitted p c r) = add_participant-IsWellFormed p c (Reached-IsWellFormed r)
Reached-IsWellFormed (removed p c d r e) =
    remove_participant-IsWellFormed p c (Reached-IsWellFormed r) e

-- Admitting a user adds that user and nobody else, and reports whether the membership is new.
pub is_participant-add_participant :
    (p q : ParticipantId) (c : Conversation)
    → (is_participant q (add_participant p c).0 ≡ (q == p || is_participant q c))
      × ((add_participant p c).1 ≡ not (is_participant p c))
unfolding add_participant
is_participant-add_participant p q c = ground arith

-- A member who was removed may no longer read or post, and every other user may exactly as before.
pub ensure_participant-remove_participant :
    (p q : ParticipantId) (c : Conversation) {d : Conversation}
    → remove_participant p c ≡ ok d
    → ensure_participant q d ≡ (
        if p == q
        then err (conversation_error not_conversation_participant)
        else ensure_participant q c)
unfolding remove_participant ensure_participant
ensure_participant-remove_participant p q c e =
    ground (arith, contains-without_element p q c.participant_ids)
