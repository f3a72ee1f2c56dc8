-- ===== src/Realtime/Subscriber/Synced.antt =====
-- How far what the pub/sub connection is subscribed to is what the subscriber keeps in its set.
use dizzchat.Prelude.{
  ◌≡◌, refl, subst, Bool, true, false, ◌||◌, not, List, [], ◌∷◌, arith, contains, with_element,
  contains-with_element, contains-without_element, is_empty, all, Bool-cases, Result-cases, inl,
  inr, ok, err,
}
use dizzchat.Messaging.Conversation.{ConversationId}
use dizzchat.Realtime.Subscriber.{
  Subscriber, Reading, quiet, received, failed, subscribe, unsubscribe, resubscribe, reconnect,
  run_reader,
}
use dizzchat.Realtime.Subscriber.Reader.{IsListening, recovers, run_reader-Delivered}

-- The connection is subscribed to nothing that is not in the set.
abbrev pub IsTrimmed : Subscriber → Type 0
IsTrimmed s = (c : ConversationId) → contains c s.listening ≡ true → contains c s.channels ≡ true

-- Where `lost` is false, every channel could be subscribed to again after each lost connection;
-- where `unanswered` is, Redis answered all that was unsubscribed from.
pub record IsSynced (lost unanswered : Bool) (s : Subscriber) : Type 0 where
  pub listens : lost ≡ false → IsListening s
  pub trimmed : unanswered ≡ false → IsTrimmed s

module _ (lost unanswered : Bool) (s : Subscriber) (h : IsSynced lost unanswered s) where
  pub subscribe-IsSynced :
      (reachable : Bool) (c : ConversationId) → IsSynced lost unanswered (subscribe reachable c s).1
  unfolding subscribe
  subscribe-IsSynced true c = record {
    listens = λ e d. ground (
      arith,
      h.listens e d,
      contains-with_element c d s.channels,
      contains-with_element c d s.listening,
    );
    trimmed = λ e d. ground (
      arith,
      h.trimmed e d,
      contains-with_element c d s.channels,
      contains-with_element c d s.listening,
    );
  }
  subscribe-IsSynced false c = h

  pub unsubscribe-IsSynced :
      (reachable : Bool) (c : ConversationId)
      → IsSynced lost (unanswered || not reachable) (unsubscribe reachable c s).1
  unfolding unsubscribe
  unsubscribe-IsSynced true c = record {
    listens = λ e d. ground (
      arith,
      h.listens e d,
      contains-without_element c d s.channels,
      contains-without_element c d s.listening,
    );
    trimmed = λ e d. ground (
      arith,
      h.trimmed (ground arith) d,
      contains-without_element c d s.channels,
      contains-without_element c d s.listening,
    );
  }
  unsubscribe-IsSynced false c = record {
    listens = λ e d. ground (arith, h.listens e d, contains-without_element c d s.channels);
    trimmed = λ e. ground arith;
  }

resubscribe-trimmed :
    (reachable : ConversationId → Bool) (channels listening : List ConversationId)
    (d : ConversationId)
    → contains d (resubscribe reachable channels listening).1 ≡ true
    → (contains d channels || contains d listening) ≡ true
unfolding resubscribe
resubscribe-trimmed reachable [] listening d = λ h. h
resubscribe-trimmed reachable (c ∷ channels) listening d = elim (Bool-cases (reachable c)) [
  | inl up ↦ rw up λ h. ground (
    arith,
    resubscribe-trimmed reachable channels (with_element c listening) d h,
    contains-with_element c d listening,
  )
  | inr down ↦ rw down λ h. ground arith
]

-- The rounds of the reader leave the set as it is.
pub run_reader-channels :
    (readings : List Reading) (s : Subscriber) → (run_reader readings s).1.1.channels ≡ s.channels
unfolding run_reader
run_reader-channels [] s = refl
run_reader-channels (quiet ∷ readings) s = run_reader-channels readings s
run_reader-channels (received (err _) ∷ readings) s = run_reader-channels readings s
run_reader-channels (received (ok m) ∷ readings) s = elim (Bool-cases (is_empty s.channels)) [
  | inl unused ↦ rw unused (run_reader-channels readings s)
  | inr used ↦ rw used (run_reader-channels readings s)
]
run_reader-channels (failed reachable ∷ readings) s = elim (Bool-cases (is_empty s.channels)) [
  | inl unused ↦ rw unused (run_reader-channels readings s)
  | inr used ↦ elim (Result-cases (reconnect reachable s).0) [
    | inl (e, down) ↦ rw used (rw down refl)
    | inr (x, up) ↦ rw used (rw up (run_reader-channels readings (reconnect reachable s).1))
  ]
]

run_reader-IsTrimmed :
    (readings : List Reading) (s : Subscriber) → IsTrimmed s → IsTrimmed (run_reader readings s).1.1
unfolding run_reader
run_reader-IsTrimmed [] s h = h
run_reader-IsTrimmed (quiet ∷ readings) s h = run_reader-IsTrimmed readings s h
run_reader-IsTrimmed (received (err _) ∷ readings) s h = run_reader-IsTrimmed readings s h
run_reader-IsTrimmed (received (ok m) ∷ readings) s h = elim (Bool-cases (is_empty s.channels)) [
  | inl unused ↦ rw unused (run_reader-IsTrimmed readings s h)
  | inr used ↦ rw used (run_reader-IsTrimmed readings s h)
]
run_reader-IsTrimmed (failed reachable ∷ readings) s h =
    let again : IsTrimmed (reconnect reachable s).1 =
      λ d there. ground (arith, resubscribe-trimmed reachable s.channels [] d there) in
    elim (Bool-cases (is_empty s.channels)) [
      | inl unused ↦ rw unused (run_reader-IsTrimmed readings s h)
      | inr used ↦ elim (Result-cases (reconnect reachable s).0) [
        | inl (e, down) ↦ rw used (rw down again)
        | inr (x, up) ↦
            rw used (rw up (run_reader-IsTrimmed readings (reconnect reachable s).1 again))
      ]
    ]

run_reader-IsListening :
    (readings : List Reading) (s : Subscriber)
    → all (recovers s.channels) readings ≡ true
    → IsListening s
    → IsListening (run_reader readings s).1.1
run_reader-IsListening readings s recovered h = elim (Bool-cases (is_empty s.channels)) [
  | inr used ↦ (run_reader-Delivered readings s used recovered h).still_listening
  | inl unused ↦ λ d there.
      none_there s.channels unused d
        (subst (λ l. contains d l ≡ true) (run_reader-channels readings s) there)
]
  where
    none_there :
        {A : Type 0} (channels : List ConversationId)
        → is_empty channels ≡ true
        → (d : ConversationId) → contains d channels ≡ true
        → A
    none_there [] e d there = absurd (cc there)
    none_there (c ∷ channels) e d there = absurd (cc e)

-- The flag becomes true unless every channel could be subscribed to again each time.
pub run_reader-IsSynced :
    (lost unanswered : Bool) (readings : List Reading) (s : Subscriber)
    → IsSynced lost unanswered s
    → IsSynced
        (lost || not (all (recovers s.channels) readings))
        unanswered
        (run_reader readings s).1.1
run_reader-IsSynced lost unanswered readings s h = record {
  listens = λ e. run_reader-IsListening readings s (ground arith) (h.listens (ground arith));
  trimmed = λ e. run_reader-IsTrimmed readings s (h.trimmed e);
}
