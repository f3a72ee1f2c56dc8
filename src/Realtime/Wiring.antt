-- ===== src/Realtime/Wiring.antt =====
-- The endpoint on the services that .../inbound/api/realtime/dependencies.py and `lifespan` in
-- src/dizzchat/app.py give it: the units of work on the database, the registry and the limiter of the
-- replica, and the publisher.
pub mod Stored
pub mod CaughtUp
use dizzchat.Prelude.{ℕ, suc, ◌/◌, Bool, Option, none, some, List, length, ok, err, Result}
use dizzchat.Text.{Text}
use dizzchat.Errors.{Attempt, Error, value_error}
use dizzchat.Storage.Rows.{Database}
use dizzchat.Storage.Session.{Action}
use dizzchat.Messaging.Conversation.{Uuid, Time, ConversationId, ParticipantId}
use dizzchat.Messaging.Message.{Message, MessageId, SenderId, ClientMessageId}
use dizzchat.Messaging.Outbound.{
  session_scoped_conversation_access, session_scoped_message_replayer,
}
use dizzchat.Messaging.Services.MessageExchange.Durable.{World, run_exchange}
use dizzchat.Identity.AccessTokens.{AccessClaims}
use dizzchat.Realtime.ConnectionManager.{Connection}
use dizzchat.Realtime.ConversationRegistry.{Replica, join, leave}
use dizzchat.Realtime.RateLimiter.{Key, allow}
use dizzchat.Realtime.Websocket.{
  Frame, FirstFrame, Inbound, Session, Services, SendMessagePayload, AuthPayload, conversation_ws,
}

-- The state that the services of one socket share with all others: the database with what was
-- published, the replica, and Redis. `calls` counts the calls of services so far.
pub record App (R : Type 0) : Type 0 where
  pub world : World
  pub replica : Replica
  pub redis : R
  pub calls : ℕ

-- What comes from outside, by the number of the call: the time, what other sessions have committed
-- meanwhile, whether publishing and the subscriptions succeed; and the commands of Redis, the
-- settings of the limiter, and the decoding of a token at a time.
pub record Surroundings (R : Type 0) : Type 0 where
  pub reading : ℕ → Time
  pub others : ℕ → Database → Database
  pub can_publish : ℕ → Message → Bool
  pub can_subscribe : ℕ → Bool
  pub incr : Key → Action R ℕ
  pub expire : Key → ℕ → Action R (Unit {0})
  pub limit : ℕ
  pub window_seconds : ℕ
  pub decode_token : Text → Time → Attempt AccessClaims

module _ {R : Type 0} (around : Surroundings R) where
  -- The state as a call finds it.
  abbrev pub arriving : App R → App R
  arriving s = record s {
    world = record s.world { db = around.others s.calls s.world.db };
    calls = suc s.calls;
  }

  -- A call in a session that is closed without a commit.
  abbrev pub in_read_session : {A : Type 0} → Action Database A → Action (App R) A
  in_read_session m s = let s' = arriving s in ((m s'.world.db).0, s')

  abbrev pub on_replica : {A : Type 0} → (Bool → Action Replica A) → Action (App R) A
  on_replica m s =
      let s' = arriving s in
      let (result, replica) = m (around.can_subscribe s.calls) s'.replica in
      (result, record s' { replica = replica })

  -- The claims' user, or nothing where `InvalidAccessToken` is raised.
  abbrev pub user_of : Attempt AccessClaims → Option Uuid
  user_of (ok claims) = some claims.user_id
  user_of (err _) = none

  -- The replayed messages. The rounds of the loop are enough, so that there is a result.
  abbrev pub replayed : Attempt (Option (List Message)) → Attempt (List Message)
  replayed (ok (some missed)) = ok missed
  replayed (ok none) = err value_error
  replayed (err e) = err e

  -- The services of the socket `connection`.
  unfoldable pub services : Connection → Services (App R)
  services connection = record {
    decode_access = λ token s. user_of (around.decode_token token (around.reading s.calls));
    ensure = λ c p. in_read_session (session_scoped_conversation_access.ensure c p);
    join = λ c. on_replica (λ reachable. join reachable c connection);
    leave = λ c. on_replica (λ reachable. leave reachable c connection);
    replay_since = λ c last s.
        let (result, s') =
          in_read_session
            (λ db.
              (session_scoped_message_replayer (suc (length db.messages))).replay_since c
                (some last) db)
            s in
        (replayed result, s');
    exchange = λ c sender content key s.
        let s' = arriving s in
        let (result, world) =
          run_exchange (around.reading s.calls) (around.reading (suc s.calls))
            (around.can_publish s.calls) c sender content key s'.world in
        (result, record s' { world = world; calls = suc s'.calls });
    allow = λ u s.
        let s' = arriving s in
        let (answer, redis) =
          allow around.incr around.expire around.limit around.window_seconds u
            (around.reading s.calls / 1000000) s'.redis in
        (answer, record s' { redis = redis });
  }

  -- A socket's time on these services.
  unfoldable pub serve_socket :
      {J : Type 0}
      → (J → Option AuthPayload)
      → (J → Option SendMessagePayload)
      → (Frame → Bool)
      → Connection
      → ConversationId
      → FirstFrame J
      → List (Inbound J)
      → Action (Session (App R)) (Unit {0})
  unfolding services
  serve_socket validate_auth validate_send sends connection =
      conversation_ws (services connection) validate_auth validate_send sends
