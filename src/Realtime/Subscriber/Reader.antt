-- ===== src/Realtime/Subscriber/Reader.antt =====
-- What the reader task delivers, and how it comes back from a lost connection or does not.
use dizzchat.Prelude.{
  ◌≡◌, refl, ap, Bool, true, false, ◌||◌, List, [], ◌∷◌, arith, contains, with_element,
  contains-with_element, is_empty, all, Bool-cases, inl, inr, ok, err,
}
use dizzchat.Errors.{redis_error, Attempt}
use dizzchat.Messaging.Conversation.{ConversationId}
use dizzchat.Messaging.Message.{Message}
use dizzchat.Realtime.Subscriber.{
  Subscriber, Reading, quiet, received, failed, resubscribe, reconnect, run_reader,
}

-- The messages that were received and decode.
abbrev pub decoded : List Reading → List Message
decoded [] = []
decoded (received (ok message) ∷ readings) = message ∷ decoded readings
decoded (received (err _) ∷ readings) = decoded readings
decoded (quiet ∷ readings) = decoded readings
decoded (failed _ ∷ readings) = decoded readings

-- Whether every channel can be subscribed to again after the reading.
abbrev pub recovers : List ConversationId → Reading → Bool
recovers channels (failed reachable) = all reachable channels
recovers channels quiet = true
recovers channels (received _) = true

-- The connection is subscribed to every channel that the subscriber needs.
abbrev pub IsListening : Subscriber → Type 0
IsListening s = (c : ConversationId) → contains c s.channels ≡ true → contains c s.listening ≡ true

resubscribed :
    (reachable : ConversationId → Bool) (channels listening : List ConversationId)
    → all reachable channels ≡ true
    → ((resubscribe reachable channels listening).0 ≡ ok tt)
      × ((d : ConversationId)
          → contains d (resubscribe reachable channels listening).1
            ≡ (contains d channels || contains d listening))
unfolding resubscribe
resubscribed reachable [] listening h = (refl, λ d. refl)
resubscribed reachable (c ∷ channels) listening h =
    let here : reachable c ≡ true = ground arith in
    let rest = resubscribed reachable channels (with_element c listening) (ground arith) in
    rw here (rest.0, λ d. ground (arith, rest.1 d, contains-with_element c d listening))

resubscribe_refused :
    (reachable : ConversationId → Bool) (channels listening : List ConversationId)
    → all reachable channels ≡ false
    → (resubscribe reachable channels listening).0 ≡ err redis_error
unfolding resubscribe
resubscribe_refused reachable [] listening h = ground arith
resubscribe_refused reachable (c ∷ channels) listening h = elim (Bool-cases (reachable c)) [
  | inl up ↦
      rw up (resubscribe_refused reachable channels (with_element c listening) (ground arith))
  | inr down ↦ rw down refl
]

-- How a run of the reader ends that goes well.
pub record Delivered (channels : List ConversationId) (messages : List Message)
    (outcome : List Message × (Attempt (Unit {0}) × Subscriber)) : Type 0 where
  pub delivered : outcome.0 ≡ messages
  pub returned : outcome.1.0 ≡ ok tt
  pub same_channels : outcome.1.1.channels ≡ channels
  pub still_listening : IsListening outcome.1.1

-- A subscriber with channels hands every message that decodes to local delivery, once and in the
-- order of arrival, over any number of lost connections, if each time every channel can be
-- subscribed to again; and it listens on all its channels at the end.
pub run_reader-Delivered :
    (readings : List Reading) (s : Subscriber)
    → is_empty s.channels ≡ false
    → all (recovers s.channels) readings ≡ true
    → IsListening s
    → Delivered s.channels (decoded readings) (run_reader readings s)
unfolding run_reader
run_reader-Delivered [] s some_channel recovered listens = record {
  delivered = refl;
  returned = refl;
  same_channels = refl;
  still_listening = listens;
}
run_reader-Delivered (quiet ∷ readings) s some_channel recovered listens =
    run_reader-Delivered readings s some_channel recovered listens
run_reader-Delivered (received (err _) ∷ readings) s some_channel recovered listens =
    run_reader-Delivered readings s some_channel recovered listens
run_reader-Delivered (received (ok message) ∷ readings) s some_channel recovered listens =
    let rest = run_reader-Delivered readings s some_channel recovered listens in
    rw some_channel (record {
      delivered = ap (message ∷◌) rest.delivered;
      returned = rest.returned;
      same_channels = rest.same_channels;
      still_listening = rest.still_listening;
    })
run_reader-Delivered (failed reachable ∷ readings) s some_channel recovered listens =
    let up : all reachable s.channels ≡ true = ground arith in
    let again = resubscribed reachable s.channels [] up in
    let s' : Subscriber = (reconnect reachable s).1 in
    let rest =
      run_reader-Delivered readings s' some_channel (ground arith)
        (λ d. ground (arith, again.1 d)) in
    rw some_channel (rw again.0 rest)

-- When the connection is lost and one of the channels cannot be subscribed to again at once, the
-- reader's task ends with the error, and nothing that is received later is delivered.
pub run_reader-lost :
    (reachable : ConversationId → Bool) (readings : List Reading) (s : Subscriber)
    → is_empty s.channels ≡ false
    → all reachable s.channels ≡ false
    → ((run_reader (failed reachable ∷ readings) s).0 ≡ [])
      × ((run_reader (failed reachable ∷ readings) s).1.0 ≡ err redis_error)
unfolding run_reader
run_reader-lost reachable readings s some_channel down =
    rw some_channel (rw (resubscribe_refused reachable s.channels [] down) (refl, refl))
