-- ===== src/Tests/Wiring.antt =====
-- A socket on the services of a replica, at a concrete input: the second user sends a message.
use dizzchat.Prelude.{
  ℕ, ◌≡◌, refl, suc, true, none, false, ◌||◌, List, some, Option, [], ◌∷◌, ok, contains,
}
use dizzchat.Text.{Text, codes}
use dizzchat.Storage.Session.{resume}
use dizzchat.Storage.Conversations.{get}
use dizzchat.Messaging.Conversation.{ensure_participant, is_participant}
use dizzchat.Messaging.Services.EnsureConversationAccess
use dizzchat.Realtime.ConnectionManager.{register}
use dizzchat.Realtime.ConnectionManager.Sockets.{sockets}
use dizzchat.Realtime.Subscriber.{subscribe}
use dizzchat.Realtime.ConversationRegistry.{empty_replica, join}
use dizzchat.Realtime.ConversationRegistry.Coherence.{started}
use dizzchat.Realtime.Websocket.{
  Frame, json, text_frame, Session, AuthPayload, SendMessagePayload, auth_ok, message_new,
  authenticate,
}
use dizzchat.Realtime.Websocket.Acknowledged.{AcksKept}
use dizzchat.Realtime.Websocket.Replayed.{SentFirst}
use dizzchat.Realtime.Websocket.Wire.{OnWire, silent, own, live, Amid, oldest}
use dizzchat.Realtime.Wiring.{App, Surroundings, arriving, services, serve_socket}
use dizzchat.Realtime.Wiring.CaughtUp.{joined_app, serve_socket-catches_up}
use dizzchat.Realtime.Wiring.Stored.{IsCommitted, serve_socket-AcksKept}
use dizzchat.Tests.Fixtures.{hello, first, second, store, store-Holds, store-team}

abbrev around : Surroundings ℕ
around = record {
  reading = λ n. n;
  others = λ n db. db;
  can_publish = λ n m. true;
  can_subscribe = λ n. true;
  incr = λ key count. (ok (suc count), suc count);
  expire = λ key ttl count. (ok tt, count);
  limit = 20;
  window_seconds = 10;
  decode_token = λ token now. ok record { user_id = 2 };
}

abbrev app : App ℕ
app = record {
  world = record { db = store; published = [] };
  replica = empty_replica;
  redis = 0;
  calls = 0;
}

abbrev auth : Text → Option AuthPayload
auth token = some record { token = token; last_seen_seq = none }

abbrev message : Text → Option SendMessagePayload
message content = some record { content = content; client_message_id = some 60 }

abbrev talk : Session (App ℕ)
talk =
    (serve_socket around auth message (λ frame. true) 5 7 (json (codes "token"))
      (text_frame (some hello) ∷ []) record { app = app; sent = []; closed = [] }).1

serve_socket-AcksKept_example : AcksKept IsCommitted talk
serve_socket-AcksKept_example =
    serve_socket-AcksKept around (λ n db row there. there) 5 auth message (λ frame. true) 7
      (json (codes "token")) (text_frame (some hello) ∷ []) app

-- The second user comes back with the number of the first message.
abbrev back : Text → Option AuthPayload
back token = some record { token = token; last_seen_seq = some 1 }

abbrev quiet_session : Session (App ℕ)
quiet_session = record { app = app; sent = []; closed = [] }

back_is_known :
    authenticate
      (services around 5)
      back
      message
      (λ frame. true)
      (json (codes "token"))
      quiet_session
    ≡ (ok (some (2, codes "token", some 1)), quiet_session)
unfolding authenticate services
back_is_known = refl

may_read : ((services around 5).ensure 7 2 app).0 ≡ ok tt
unfolding services EnsureConversationAccess.execute ensure_participant is_participant get
may_read = rw (store-team, resume) refl

joins : ((services around 5).join 7 (arriving around app)).0 ≡ ok tt
unfolding services join register subscribe
joins = refl

abbrev back_talk : Session (App ℕ)
back_talk =
    (serve_socket around back message (λ frame. true) 5 7 (json (codes "token"))
      (text_frame (some hello) ∷ []) quiet_session).1

-- A broadcast of the second message after each frame that the endpoint sends, the first included.
interrupted : List Frame → List Frame
interrupted [] = []
interrupted (frame ∷ sent) = message_new second ∷ frame ∷ interrupted sent

interrupted-OnWire : (sent : List Frame) → OnWire sent (interrupted sent)
unfolding interrupted
interrupted-OnWire [] = silent
interrupted-OnWire (frame ∷ sent) = live second (own frame (interrupted-OnWire sent))

serve_socket-catches_up_example :
    let replica = (joined_app around 5 7 app).replica in
    let wire = interrupted back_talk.sent in
    ((contains 5 (sockets 7 replica.connections) ≡ true)
      × (contains 7 replica.subscriber.channels ≡ true)
      × ((false || contains 7 replica.subscriber.listening) ≡ true))
    × SentFirst (message_new second ∷ auth_ok ∷ []) back_talk
    × (oldest wire ≡ some auth_ok)
    × Amid (message_new second ∷ auth_ok ∷ []) wire
unfolding services
serve_socket-catches_up_example =
    serve_socket-catches_up around 5 back message (λ frame. true) 7 (json (codes "token"))
      (text_frame (some hello) ∷ []) app 2 (codes "token") 1 (second ∷ first ∷ [])
      (interrupted back_talk.sent) (λ frame. refl) started back_is_known may_read joins store-Holds
      (interrupted-OnWire back_talk.sent)
