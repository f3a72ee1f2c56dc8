-- ===== src/Realtime/Wiring/CaughtUp.antt =====
-- That a client which comes back misses nothing: the replay reads the tables when the socket is
-- already among those that later messages are delivered to.
use mathlib.Core.List.{reverse}
use dizzchat.Prelude.{
  suc, ◌≡◌, ◌<◌, refl, ap, subst, ◌∙◌, ◌||◌, Bool, true, Option, some, List, [], ◌∷◌, ◌++◌, map,
  arith, ◌==◌, contains, contains-with_element, not, is_empty, length, length-map, length-filter,
  length-reverse, Bool-cases, inl, inr, ok, err,
}
use dizzchat.Text.{Text}
use dizzchat.Errors.{Attempt, redis_error}
use dizzchat.Storage.Rows.{Database}
use dizzchat.Storage.Messages.Log.{Holds, channel, Holds-IsLog, to_row}
use dizzchat.Storage.Messages.{sqlalchemy_message_repository}
use dizzchat.Messaging.Conversation.{Uuid, ConversationId}
use dizzchat.Messaging.Message.{Message, MessageId}
use dizzchat.Messaging.Ports.{newer, after_cursor}
use dizzchat.Messaging.Outbound.{replay_since}
use dizzchat.Messaging.Services.ReplayMessages.Complete.{execute-replays}
use dizzchat.Realtime.ConnectionManager.{Connection, register}
use dizzchat.Realtime.ConnectionManager.Sockets.{sockets, sockets-register}
use dizzchat.Realtime.ConnectionManager.Transitions.{is_live}
use dizzchat.Realtime.Subscriber.{subscribe}
use dizzchat.Realtime.ConversationRegistry.{Replica, join}
use dizzchat.Realtime.ConversationRegistry.Coherence.{Troubles, Reached, joined, Reached-covered}
use dizzchat.Realtime.Websocket.{
  Frame, auth_ok, message_new, FirstFrame, Inbound, SendMessagePayload, AuthPayload, authenticate,
}
use dizzchat.Realtime.Websocket.Wire.{
  OnWire, Amid, OnWire-suffix, oldest, oldest-append, OnWire-oldest,
}
use dizzchat.Realtime.Websocket.Replayed.{SentFirst, conversation_ws-replays}
use dizzchat.Realtime.Wiring.{App, Surroundings, arriving, replayed, services, serve_socket}

-- A join that returns leaves the socket registered.
join-registered :
    (reachable : Bool) (c : ConversationId) (k : Connection) (r : Replica)
    → (join reachable c k r).0 ≡ ok tt
    → contains k (sockets c (join reachable c k r).1.connections) ≡ true
unfolding join subscribe
join-registered reachable c k r h =
    let m = r.connections in
    let registered : contains k (sockets c (register c k m).1) ≡ true =
      ground (arith, sockets-register c c k m, contains-with_element k k (sockets c m)) in
    elim (Bool-cases (register c k m).0) [
      | inl fresh ↦ elim (Bool-cases reachable) [
        | inl up ↦ rw (fresh, join) (rw up registered)
        | inr down ↦
            let refused : (join reachable c k r).0 ≡ err redis_error =
              rw (fresh, join) (rw down refl) in
            cc (h, refused)
      ]
      | inr live ↦ rw (live, join) registered
    ]

live_of :
    (c : ConversationId) (k : Connection) (r : Replica)
    → contains k (sockets c r.connections) ≡ true
    → is_live c r.connections ≡ true
live_of c k r h = go (sockets c r.connections) h
  where
    go : (ks : List Connection) → contains k ks ≡ true → not (is_empty ks) ≡ true
    go [] e = cc
    go (x ∷ ks) e = refl

-- There is no more to replay than there are rows.
length-newer :
    (c : ConversationId) (last : MessageId) (db : Database) (ms : List Message)
    → db.messages ≡ map to_row ms
    → length (newer (some last) (reverse (channel ms c))) < suc (length db.messages)
length-newer c last db ms rows =
    let found = channel ms c in
    let whole : length db.messages ≡ length ms = rw rows (length-map to_row ms) in
    omega (
      arith,
      length-filter {0} (after_cursor last) (reverse found),
      length-reverse {0} found,
      length-filter {0} (λ (m : Message). m.conversation_id == c) ms,
      whole,
    )

module _ {R : Type 0} (around : Surroundings R) (connection : Connection) where
  -- The state in which the socket has joined, after the check.
  abbrev pub joined_app : ConversationId → App R → App R
  joined_app c app = ((services around connection).join c (arriving around app)).1

  -- What the replay finds.
  abbrev pub found_db : ConversationId → App R → Database
  found_db c app = around.others (joined_app c app).calls (joined_app c app).world.db

  replayed_lem :
      (c : ConversationId) (last : MessageId) (s : App R) (ms : List Message)
      → Holds (around.others s.calls s.world.db) ms
      → (services around connection).replay_since c last s
        ≡ (ok (newer (some last) (reverse (channel ms c))), arriving around s)
  unfolding services replay_since
  replayed_lem c last s ms holds =
      let db = around.others s.calls s.world.db in
      ap
        (λ (r : Attempt (Option (List Message)) × Database).
          (replayed around r.0, arriving around s))
        (execute-replays sqlalchemy_message_repository db (channel ms) (Holds-IsLog db ms holds)
          (suc (length db.messages)) c (some last) (length-newer c last db ms holds.rows))

  ensured :
      (c : ConversationId) (u : Uuid) (app : App R)
      → ((services around connection).ensure c u app).0 ≡ ok tt
      → (services around connection).ensure c u app ≡ (ok tt, arriving around app)
  unfolding services
  ensured c u app h = ap (λ (r : Attempt (Unit {0})). (r, arriving around app)) h

  joined_replica :
      {t : Troubles} (c : ConversationId) (app : App R)
      → Reached t app.replica
      → ((services around connection).join c (arriving around app)).0 ≡ ok tt
      → let replica = (joined_app c app).replica in
        (contains connection (sockets c replica.connections) ≡ true)
        × (contains c replica.subscriber.channels ≡ true)
        × ((t.lost || contains c replica.subscriber.listening) ≡ true)
  unfolding services
  joined_replica c app reached h =
      let reachable = around.can_subscribe (suc app.calls) in
      let there = join-registered reachable c connection app.replica h in
      let replica = (join reachable c connection app.replica).1 in
      let (kept, heard) =
        Reached-covered c (joined reachable c connection app.replica reached)
          (live_of c connection replica there) in
      (there, kept, heard)

  -- On a socket that takes every frame, on a replica as joins, leaves, broadcasts and rounds of its
  -- reader leave it, where a user with a cursor may read the conversation, the join succeeds and the
  -- tables then hold a log of messages, and whatever other sessions commit. Before the tables are
  -- read for the replay, the socket is registered with the conversation, which is in the subscriber's
  -- set, and the pub/sub connection is subscribed to it, unless the reader failed to subscribe again
  -- earlier. Of the frames that the endpoint itself sends, the first are that the client is
  -- authenticated, and then every message of the conversation that the tables hold by the time of
  -- the replay and that is newer than the client's cursor, the oldest first. And wherever broadcasts
  -- come in between, once that first frame was sent: the first frame on the wire is that the client
  -- is authenticated, and behind it each of these messages is on the wire at least once, those of
  -- the replay in ascending order with other frames in between.
  pub serve_socket-catches_up :
      {J : Type 0} {t : Troubles} (validate_auth : J → Option AuthPayload)
      (validate_send : J → Option SendMessagePayload) (sends : Frame → Bool) (c : ConversationId)
      (first : FirstFrame J) (inbound : List (Inbound J)) (app : App R) (u : Uuid) (token : Text)
      (last : MessageId) (ms : List Message) (wire : List Frame)
      → ((frame : Frame) → sends frame ≡ true)
      → Reached t app.replica
      → authenticate
          (services around connection)
          validate_auth
          validate_send
          sends
          first
          (record { app = app; sent = []; closed = [] })
        ≡ (ok (some (u, token, some last)), record { app = app; sent = []; closed = [] })
      → ((services around connection).ensure c u app).0 ≡ ok tt
      → ((services around connection).join c (arriving around app)).0 ≡ ok tt
      → Holds (found_db c app) ms
      → OnWire
          (serve_socket around validate_auth validate_send sends connection c first inbound
            (record { app = app; sent = []; closed = [] })).1.sent
          wire
      → let replica = (joined_app c app).replica in
        let frames =
          reverse (map message_new (newer (some last) (reverse (channel ms c))))
          ++ (auth_ok ∷ []) in
        ((contains connection (sockets c replica.connections) ≡ true)
          × (contains c replica.subscriber.channels ≡ true)
          × ((t.lost || contains c replica.subscriber.listening) ≡ true))
        × SentFirst frames
            (serve_socket around validate_auth validate_send sends connection c first inbound
              (record { app = app; sent = []; closed = [] })).1
        × (oldest wire ≡ some auth_ok)
        × Amid frames wire
  unfolding serve_socket
  serve_socket-catches_up {J} {t} validate_auth validate_send sends c first inbound app u token last
        ms wire takes_all reached known may in_ holds on_wire =
      let s = joined_app c app in
      let news = reverse (map message_new (newer (some last) (reverse (channel ms c)))) in
      let (later, e) =
        conversation_ws-replays (services around connection) validate_auth validate_send sends
          takes_all c first inbound (record { app = app; sent = []; closed = [] }) u token last
          (newer (some last) (reverse (channel ms c))) (arriving around app) s (arriving around s)
          known (ensured c u app may) (ap (λ (r : Attempt (Unit {0})). (r, s)) in_)
          (replayed_lem c last s ms holds) in
      let carried = subst (λ sent. OnWire sent wire) e on_wire in
      (
        joined_replica c app reached in_,
        (later, e),
        OnWire-oldest carried
            ∙ oldest-append later (news ++ (auth_ok ∷ [])) auth_ok
                (oldest-append news (auth_ok ∷ []) auth_ok refl),
        OnWire-suffix later (news ++ (auth_ok ∷ [])) carried,
      )
