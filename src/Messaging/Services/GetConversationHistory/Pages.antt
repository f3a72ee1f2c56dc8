-- ===== src/Messaging/Services/GetConversationHistory/Pages.antt =====
-- The pages of a conversation's history follow one another without a gap and without a repeat.
use dizzchat.Prelude.{
  ℕ, zero, suc, ◌≡◌, ◌≤◌, refl, ap, ◌∙◌, true, false, Option, none, some, List, [], ◌∷◌, ◌++◌,
  arith, ltb, length, get_last?, take, drop, ok, beyond-get_last?, append-nil, length-take,
  take-append-drop, inl, inr, Option-cases, Bool-cases, get_last?-none, take-suc-nil,
}
use mathlib.Core.Option
use dizzchat.Storage.Session.{resume}
use dizzchat.Messaging.Conversation.{
  Conversation, ConversationId, ParticipantId, is_participant, ensure_participant,
}
use dizzchat.Messaging.Message.{Message, MessageId}
use dizzchat.Messaging.Ports.{
  ConversationRepository, MessageRepository, IsLog, older, before_cursor, NewestFirst,
}
use dizzchat.Messaging.Services.GetConversationHistory.{MessagePage, page_of, execute}

before_cursor-asym : (m n : Message) → before_cursor m.id n ≡ true → before_cursor n.id m ≡ false
before_cursor-asym m n h = ground arith

before_cursor_trans :
    (a : ℕ) (m n : Message)
    → before_cursor a m ≡ true
    → before_cursor m.id n ≡ true
    → before_cursor a n ≡ true
before_cursor_trans a m n h k = ground arith

take-take-suc : (n : ℕ) (ms : List Message) → take n (take (suc n) ms) ≡ take n ms
take-take-suc zero ms = refl
take-take-suc (suc n) [] = refl
take-take-suc (suc n) (m ∷ ms) = ap (m ∷◌) (take-take-suc n ms)

take-all : (n : ℕ) (ms : List Message) → length ms ≤ n → take n ms ≡ ms
take-all zero [] h = refl
take-all zero (m ∷ ms) h = elim h [ ]
take-all (suc n) [] h = refl
take-all (suc n) (m ∷ ms) h = ap (m ∷◌) (take-all n ms (omega arith))

-- What the page's cursor leads to.
abbrev pub following : MessagePage → List Message → List Message
following page ms = elim page.next_cursor [ none ↦ [] | some cursor ↦ older (some cursor) ms ]

page_of-has_more :
    (limit : ℕ) (ms : List Message)
    → (page_of limit (take (suc limit) ms)).has_more ≡ ltb limit (length ms)
unfolding page_of
page_of-has_more limit ms = ground (arith, length-take (suc limit) ms)

page_of-items :
    (limit : ℕ) (ms : List Message) → (page_of limit (take (suc limit) ms)).items ≡ take limit ms
unfolding page_of
page_of-items limit ms = take-take-suc limit ms

next_cursor :
    (k : ℕ) (before : Option MessageId) (ms : List Message) (m : Message)
    → NewestFirst ms
    → get_last? (take (suc k) (older before ms)) ≡ some m
    → older (some m.id) ms ≡ drop (suc k) (older before ms)
next_cursor =
    beyond-get_last? (λ (m : Message). m.id) before_cursor before_cursor-asym before_cursor_trans

fits_page : (n : ℕ) (ms : List Message) → ltb n (length (take (suc n) ms)) ≡ false → length ms ≤ n
fits_page n ms h = ground (arith, length-take (suc n) ms)

page_of-following :
    (k : ℕ) (before : Option MessageId) (ms : List Message)
    → NewestFirst ms
    → let page = page_of (suc k) (take (suc (suc k)) (older before ms)) in
      page.items ++ following page ms ≡ older before ms
unfolding page_of
page_of-following k before ms h =
    let all : List Message = older before ms in
    rw (take-take-suc (suc k) all)
      (elim (Bool-cases (ltb (suc k) (length (take (suc (suc k)) all)))) [
        | inl more ↦ rw more (elim (Option-cases (get_last? (take (suc k) all))) [
          | inl e ↦
              let nothing : all ≡ [] = take-suc-nil k all (get_last?-none (take (suc k) all) e) in
              rw (e, Option.map) (rw nothing)
          | inr (m, e) ↦
              rw (e, Option.map) (rw (next_cursor k before ms m h e) (take-append-drop (suc k) all))
        ])
        | inr last ↦
            rw last
              (append-nil (take (suc k) all) ∙ take-all (suc k) all (fits_page (suc k) all last))
      ])

module _ {S : Type 0} (conversations : ConversationRepository S) (messages : MessageRepository S)
    (s : S) (log : ConversationId → List Message) (is_log : IsLog messages s log) where
  -- A participant of an active conversation gets the newest messages before the cursor, as many as
  -- the limit, which is at least one; the page tells whether there are more; and its messages,
  -- followed by what its cursor leads to, are all the messages before the cursor, none left out and
  -- none twice. Nothing is written.
  pub execute-pages :
      (k : ℕ) (c : ConversationId) (p : ParticipantId) (before : Option MessageId)
      {conversation : Conversation}
      → conversations.get c s ≡ (ok (some conversation), s)
      → is_participant p conversation ≡ true
      → (page : MessagePage) × (execute conversations messages c p before (suc k) s ≡ (ok page, s))
        × (page.items ≡ take (suc k) (older before (log c)))
        × (page.has_more ≡ ltb (suc k) (length (older before (log c))))
        × (page.items ++ following page (log c) ≡ older before (log c))
  unfolding execute ensure_participant
  execute-pages k c p before found member = (
    page_of (suc k) (take (suc (suc k)) (older before (log c))),
    rw (found, resume) (rw member (rw (is_log.list_history_lem c before (suc (suc k)), resume))),
    page_of-items (suc k) (older before (log c)),
    page_of-has_more (suc k) (older before (log c)),
    page_of-following k before (log c) (is_log.newest_comes_first c),
  )
