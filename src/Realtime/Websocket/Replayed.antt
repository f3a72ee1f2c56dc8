-- ===== src/Realtime/Websocket/Replayed.antt =====
-- What is sent to a client that comes back with the last number it has seen.
use mathlib.Core.List.{reverse, reverse-cons}
use dizzchat.Prelude.{
  ◌≡◌, refl, sym, ap, subst, ◌∙◌, Bool, true, Option, some, List, [], ◌∷◌, ◌++◌, map, append_assoc,
  Result, ok, err,
}
use dizzchat.Text.{Text}
use dizzchat.Errors.{Error}
use dizzchat.Storage.Session.{◌>>◌, >>=-ok}
use dizzchat.Messaging.Conversation.{Uuid, ConversationId}
use dizzchat.Messaging.Message.{Message, MessageId}
use dizzchat.Realtime.Websocket.{
  Frame, auth_ok, message_new, message_ack, FirstFrame, Inbound, Session, Services,
  SendMessagePayload, AuthPayload, call, authenticate, send_all, replay_missed, receive_loop, ended,
  converse, enter, conversation_ws,
}
use dizzchat.Realtime.Websocket.Preserved.{
  AfterExchange, AreKept, Preserves-bind, receive_loop-Preserves, ended-Preserves,
}

-- The frames `before` were sent, and whatever was sent later came after them.
abbrev pub SentFirst : {S : Type 0} → List Frame → Session S → Type 0
SentFirst before s = (later : List Frame) × (s.sent ≡ later ++ before)

module _ {S : Type 0} (services : Services S) (before : List Frame) where
  after_exchange :
      (s : Session S) (r : Result Error Message × S)
      → SentFirst before s
      → AfterExchange (SentFirst before) s r
  after_exchange s (ok m, app) (later, e) =
      ((later, e), (message_ack m ∷ later, ap (message_ack m ∷◌) e))
  after_exchange s (err x, app) h = h

  SentFirst-AreKept : AreKept (SentFirst before) services
  SentFirst-AreKept = record {
    ensure_keeps = λ c p s h. h;
    join_keeps = λ c s h. h;
    leave_keeps = λ c s h. h;
    replay_keeps = λ c last s h. h;
    allow_keeps = λ u s h. h;
    exchange_keeps = λ c sender content key s h.
        after_exchange s (services.exchange c sender content key s.app) h;
    close_keeps = λ status s h. h;
    send_keeps = λ frame s silent h. (frame ∷ h.0, ap (frame ∷◌) h.1);
  }

module _ {S J : Type 0} (services : Services S) (validate_auth : J → Option AuthPayload)
    (validate_send : J → Option SendMessagePayload) (sends : Frame → Bool)
    (takes_all : (frame : Frame) → sends frame ≡ true) where
  reverse_onto :
      (m : Message) (missed : List Message) (frames : List Frame)
      → reverse (map message_new (m ∷ missed)) ++ frames
        ≡ reverse (map message_new missed) ++ (message_new m ∷ frames)
  reverse_onto m missed frames =
      ap (λ (l : List Frame). l ++ frames) (reverse-cons (message_new m) (map message_new missed))
      ∙ append_assoc (reverse (map message_new missed)) (message_new m ∷ []) frames

  send_all-sent :
      (missed : List Message) (s : Session S)
      → send_all services validate_auth validate_send sends missed s
        ≡ (ok tt, record s { sent = reverse (map message_new missed) ++ s.sent })
  unfolding send_all
  send_all-sent [] s = refl
  send_all-sent (m ∷ missed) s = rw (takes_all (message_new m)) (
      send_all-sent missed (record s { sent = message_new m ∷ s.sent })
      ∙ ap (λ (l : List Frame). (ok tt, record s { sent = l }))
          (sym (reverse_onto m missed s.sent)))

  -- What `converse` does once the loop has ended.
  finish-SentFirst :
      (c : ConversationId) (before : List Frame) (r : Result Error (Unit {0}) × Session S)
      → SentFirst before r.1
      → SentFirst before
          ((ended services validate_auth validate_send sends r.0 >> call (services.leave c)) r.1).1
  finish-SentFirst c before r h =
      Preserves-bind (SentFirst before) (ended services validate_auth validate_send sends r.0)
        (λ _. call (services.leave c))
        (ended-Preserves (SentFirst before) services validate_auth validate_send sends
          (SentFirst-AreKept services before) r.0)
        (λ _ s h. h) r.1 h

  converse-replays :
      (c : ConversationId) (u : Uuid) (token : Text) (last : MessageId) (inbound : List (Inbound J))
      (missed : List Message) (s : Session S) (replayed : S)
      → services.replay_since c last s.app ≡ (ok missed, replayed)
      → SentFirst
          (reverse (map message_new missed) ++ s.sent)
          (converse services validate_auth validate_send sends c u token (some last) inbound s).1
  unfolding converse
  converse-replays c u token last inbound missed s replayed e =
      let before = reverse (map message_new missed) ++ s.sent in
      let loop = receive_loop services validate_auth validate_send sends c u token inbound in
      let s1 : Session S = record s { app = replayed; sent = before } in
      let called : call (services.replay_since c last) s
          ≡ (ok missed, record s { app = replayed }) =
        ap (λ (r : Result Error (List Message) × S). (r.0, record s { app = r.1 })) e in
      let sent : replay_missed services validate_auth validate_send sends c (some last) s
          ≡ (ok tt, s1) =
        >>=-ok (call (services.replay_since c last))
          (send_all services validate_auth validate_send sends) called
        ∙ send_all-sent missed (record s { app = replayed }) in
      let talk =
        >>=-ok (replay_missed services validate_auth validate_send sends c (some last)) (λ _. loop)
          sent in
      subst
        (λ (r : Result Error (Unit {0}) × Session S).
          SentFirst before
            ((ended services validate_auth validate_send sends r.0 >> call (services.leave c))
              r.1).1)
        (sym talk)
        (finish-SentFirst c before (loop s1) (
          receive_loop-Preserves (SentFirst before) services validate_auth validate_send sends
            (SentFirst-AreKept services before) c u token inbound s1 ([], refl)))

  -- On a socket that takes every frame, and whatever its client sends: a client that is let into its
  -- conversation with a cursor is sent, before anything else, that it is authenticated, and then
  -- every message that the replay returns, in its order.
  pub conversation_ws-replays :
      (c : ConversationId) (first : FirstFrame J) (inbound : List (Inbound J)) (s : Session S)
      (u : Uuid) (token : Text) (last : MessageId) (missed : List Message)
      (checked joined replayed : S)
      → authenticate services validate_auth validate_send sends first s
        ≡ (ok (some (u, token, some last)), s)
      → services.ensure c u s.app ≡ (ok tt, checked)
      → services.join c checked ≡ (ok tt, joined)
      → services.replay_since c last joined ≡ (ok missed, replayed)
      → SentFirst
          (reverse (map message_new missed) ++ (auth_ok ∷ s.sent))
          (conversation_ws services validate_auth validate_send sends c first inbound s).1
  unfolding conversation_ws enter
  conversation_ws-replays c first inbound s u token last missed checked joined replayed known may
        in_ e =
      rw (known, conversation_ws)
        (rw (may, enter)
          (rw (takes_all auth_ok) (
            rw in_ (
              converse-replays c u token last inbound missed
                (record s { app = joined; sent = auth_ok ∷ s.sent }) replayed e))))
