-- ===== src/Realtime/Lifespan.antt =====
-- `lifespan` in src/dizzchat/app.py, from the migrations at start-up to the shutdown, with the start
-- and the stop of the subscriber's reader in .../outbound/redis/redis_conversation_subscriber.py.
-- Whether Redis answers a call that closes a connection is an argument. The drain is one step: what the
-- endpoints of the sockets that it closes do meanwhile comes before it or not at all.
pub mod Shutdown
use dizzchat.Prelude.{
  ℕ, Bool, true, false, Option, none, some, List, [], ◌∷◌, ◌++◌, ok, err, if◌then◌else◌,
}
use dizzchat.Errors.{Attempt, redis_error}
use dizzchat.Storage.Session.{Action, ◌>>=◌, ◌>>◌, pure, lift}
use dizzchat.Messaging.Conversation.{ConversationId}
use dizzchat.Realtime.ConnectionManager.{Connection, Closing, close_all, drop_dead}
use dizzchat.Realtime.Subscriber.{Reading, run_reader}
use dizzchat.Realtime.ConversationRegistry.{Replica, empty_replica, join, leave}

-- The reader's task: in its loop, or ended by an error, which whoever awaits the task is given.
pub data Task : Type 0 where
  reading : Task
  ended : Attempt (Unit {0}) → Task

-- What the application's state holds. `closing` is the sockets whose closing was begun.
pub record Process : Type 0 where
  pub replica : Replica
  pub closing : List Connection
  pub running : Bool
  pub task : Option Task
  pub pubsub_open : Bool
  pub redis_open : Bool
  pub engine_open : Bool

-- `RedisConversationSubscriber.start`
abbrev pub start_reader : Process → Process
start_reader p = record p { running = true; task = some reading }

-- What the part of `lifespan` before its yield sets up.
abbrev pub serving_process : Process
serving_process = start_reader record {
  replica = empty_replica;
  closing = [];
  running = false;
  task = none;
  pubsub_open = true;
  redis_open = true;
  engine_open = true;
}

-- By what the migrations come to.
unfoldable pub startup : Attempt (Unit {0}) → Attempt Process
startup (err e) = err e
startup (ok _) = ok serving_process

-- What happens while the application serves.
pub data Happening : Type 0 where
  joined : Bool → ConversationId → Connection → Happening
  left : Bool → ConversationId → Connection → Happening
  dropped : ConversationId → List Connection → Happening
  read : Reading → Happening

-- The task after a round of its loop.
abbrev pub task_after : Attempt (Unit {0}) → Task
task_after (ok _) = reading
task_after (err e) = ended (err e)

-- A round of the reader, for as long as its task is in the loop.
unfoldable pub read_round : Reading → Option Task → Process → Process
read_round r none p = p
read_round r (some (ended _)) p = p
read_round r (some reading) p =
    let (_, (result, subscriber)) = run_reader (r ∷ []) p.replica.subscriber in
    record p {
      replica = record p.replica { subscriber = subscriber };
      task = some (task_after result);
    }

unfoldable pub happen : Happening → Process → Process
unfolding read_round
happen (joined reachable c k) p = record p { replica = (join reachable c k p.replica).1 }
happen (left reachable c k) p = record p { replica = (leave reachable c k p.replica).1 }
happen (dropped c dead) p = record p {
  replica = record p.replica { connections = drop_dead c dead p.replica.connections };
}
happen (read r) p = read_round r p.task p

unfoldable pub happen_all : List Happening → Process → Process
unfolding happen
happen_all [] p = p
happen_all (h ∷ happenings) p = happen_all happenings (happen h p)

-- `wait_for(close_all(), ...)`, with its `TimeoutError` caught.
unfoldable pub drain : (Connection → Closing) → Action Process (Unit {0})
drain closing p =
    let (begun, (_, connections)) = close_all closing p.replica.connections in
    (
      ok tt,
      record p {
        replica = record p.replica { connections = connections };
        closing = p.closing ++ begun;
      },
    )

-- `await self._task` once it was cancelled: a task in its loop raises `CancelledError`, which is
-- suppressed, and a task that has ended raises what it ended by.
abbrev pub await_cancelled : Task → Attempt (Unit {0})
await_cancelled reading = ok tt
await_cancelled (ended outcome) = outcome

abbrev pub stop_task : Option Task → Action Process (Unit {0})
stop_task none = pure tt
stop_task (some task) = lift (await_cancelled task) >> λ p. (ok tt, record p { task = none })

abbrev pub close_pubsub : Bool → Action Process (Unit {0})
close_pubsub answers p =
    if answers then (ok tt, record p { pubsub_open = false }) else (err redis_error, p)

-- `RedisConversationSubscriber.stop`
unfoldable pub stop : Bool → Action Process (Unit {0})
stop answers p = (stop_task p.task >> close_pubsub answers) (record p { running = false })

abbrev pub close_redis : Bool → Action Process (Unit {0})
close_redis answers p =
    if answers then (ok tt, record p { redis_open = false }) else (err redis_error, p)

abbrev pub dispose_engine : Action Process (Unit {0})
dispose_engine p = (ok tt, record p { engine_open = false })

-- The part of `lifespan` behind its yield.
unfoldable pub shutdown : (Connection → Closing) → Bool → Bool → Action Process (Unit {0})
unfolding drain stop
shutdown closing pubsub_answers redis_answers = do
  drain closing
  stop pubsub_answers
  close_redis redis_answers
  dispose_engine
