-- ===== src/Messaging/Services/ReplayMessages/Complete.antt =====
-- The replay ends, and misses nothing.
use mathlib.Core.List.{reverse}
use dizzchat.Prelude.{
  ℕ, zero, suc, ◌≡◌, ◌<◌, ap, ◌∙◌, true, false, Option, some, List, [], ◌∷◌, ◌++◌, arith, ltb,
  ltb→lt, length, get_last?, take, drop, ok, Ordered-reverse, beyond-get_last?, append-nil,
  append_assoc, length-drop, take-append-drop, inl, inr, Option-cases, Bool-cases, get_last?-none,
  take-short, take-suc-nil,
}
use dizzchat.Storage.Session.{resume}
use dizzchat.Messaging.Conversation.{ConversationId}
use dizzchat.Messaging.Message.{Message, MessageId}
use dizzchat.Messaging.Ports.{
  MessageRepository, IsLog, newer, after_cursor, before_cursor, OldestFirst,
}
use dizzchat.Messaging.Services.ReplayMessages.{read_pages, execute}

after_cursor-asym : (m n : Message) → after_cursor m.id n ≡ true → after_cursor n.id m ≡ false
after_cursor-asym m n h = ground arith

after_cursor_trans :
    (a : ℕ) (m n : Message)
    → after_cursor a m ≡ true
    → after_cursor m.id n ≡ true
    → after_cursor a n ≡ true
after_cursor_trans a m n h k = ground arith

-- Behind a full page stands what the page left.
next_cursor :
    (k : ℕ) (cursor : Option MessageId) (ms : List Message) (m : Message)
    → OldestFirst ms
    → get_last? (take (suc k) (newer cursor ms)) ≡ some m
    → newer (some m.id) ms ≡ drop (suc k) (newer cursor ms)
next_cursor =
    beyond-get_last? (λ (m : Message). m.id) after_cursor after_cursor-asym after_cursor_trans

-- A page and what it left, behind what was collected.
collect :
    (k : ℕ) (collected rest : List Message)
    → (collected ++ take (suc k) rest) ++ drop (suc k) rest ≡ collected ++ rest
collect k collected rest =
    append_assoc collected (take (suc k) rest) (drop (suc k) rest)
    ∙ ap (λ (ms : List Message). collected ++ ms) (take-append-drop (suc k) rest)

-- A page leaves fewer messages than there were.
length-drop-lt :
    (k rounds : ℕ) (rest : List Message) (m : Message)
    → get_last? (take (suc k) rest) ≡ some m
    → length rest < suc rounds
    → length (drop (suc k) rest) < rounds
length-drop-lt k rounds [] m e h = cc
length-drop-lt k rounds (x ∷ rest) m e h = omega (arith, length-drop k rest)

module _ {S : Type 0} (messages : MessageRepository S) (s : S) (log : ConversationId → List Message)
    (is_log : IsLog messages s log) where
  read_pages_lem :
      (k rounds : ℕ) (c : ConversationId) (cursor : Option MessageId) (collected : List Message)
      → length (newer cursor (reverse (log c))) < rounds
      → read_pages messages (suc k) rounds c cursor collected s
        ≡ (ok (some (collected ++ newer cursor (reverse (log c)))), s)
  unfolding read_pages
  read_pages_lem k zero c cursor collected h = elim h [ ]
  read_pages_lem k (suc rounds) c cursor collected h =
      let ms : List Message = reverse (log c) in
      let rest : List Message = newer cursor ms in
      rw (is_log.list_since_lem c cursor (suc k), resume)
        (elim (Option-cases (get_last? (take (suc k) rest))) [
          | inl e ↦
              let nothing : rest ≡ [] =
                take-suc-nil k rest (get_last?-none (take (suc k) rest) e) in
              rw e (rw nothing (rw (append-nil collected)))
          | inr (m, e) ↦ rw e (elim (Bool-cases (ltb (length (take (suc k) rest)) (suc k))) [
            | inl short ↦ rw short (rw (take-short (suc k) rest (ltb→lt _ _ short)))
            | inr full ↦
                let left : newer (some m.id) ms ≡ drop (suc k) rest =
                  next_cursor k cursor ms m
                    (Ordered-reverse (λ x y. before_cursor x.id y) (log c)
                      (is_log.newest_comes_first c))
                    e in
                rw full (
                  read_pages_lem k rounds c (some m.id) (collected ++ take (suc k) rest)
                    (rw left (length-drop-lt k rounds rest m e h))
                  ∙ ap (λ (l : List Message). (ok (some l), s))
                      (rw left (collect k collected rest)))
          ])
        ])

  -- With as many rounds as there are messages to replay, and one more, the replay ends, and returns
  -- every message of the conversation that is newer than the cursor, each once and the oldest
  -- first, over however many pages of 500; it writes nothing.
  pub execute-replays :
      (rounds : ℕ) (c : ConversationId) (after : Option MessageId)
      → length (newer after (reverse (log c))) < rounds
      → execute messages rounds c after s ≡ (ok (some (newer after (reverse (log c)))), s)
  unfolding execute
  execute-replays rounds c after h = read_pages_lem 499 rounds c after [] h
