-- ===== src/Realtime/Subscriber.antt =====
-- src/dizzchat/contexts/messaging/infrastructure/outbound/redis/redis_conversation_subscriber.py.
-- A channel's name is made of the conversation's id alone, so the id stands for it. Whether Redis
-- answers a call is an argument; a call that it does not answer raises.
pub mod Reader
pub mod Synced
use dizzchat.Prelude.{
  Bool, true, false, List, [], ◌∷◌, ok, err, if◌then◌else◌, is_empty, with_element, without_element,
}
use dizzchat.Errors.{redis_error, Attempt}
use dizzchat.Storage.Session.{Action}
use dizzchat.Messaging.Conversation.{ConversationId}
use dizzchat.Messaging.Message.{Message}

-- `channels` is the subscriber's own set, and `listening` what its pub/sub connection is subscribed
-- to.
pub record Subscriber : Type 0 where
  pub channels : List ConversationId
  pub listening : List ConversationId

unfoldable pub subscribe : Bool → ConversationId → Action Subscriber (Unit {0})
subscribe reachable conversation_id s =
    if reachable
    then (
      ok tt,
      record {
        channels = with_element conversation_id s.channels;
        listening = with_element conversation_id s.listening;
      },
    )
    else (err redis_error, s)

unfoldable pub unsubscribe : Bool → ConversationId → Action Subscriber (Unit {0})
unsubscribe reachable conversation_id s =
    let channels = without_element conversation_id s.channels in
    if reachable
    then (
      ok tt,
      record { channels = channels; listening = without_element conversation_id s.listening },
    )
    else (err redis_error, record { channels = channels; listening = s.listening })

-- `for channel in self._channels: await self._pubsub.subscribe(channel)`
pub resubscribe :
    (ConversationId → Bool)
    → List ConversationId
    → List ConversationId
    → Attempt (Unit {0}) × List ConversationId
resubscribe reachable [] listening = (ok tt, listening)
resubscribe reachable (c ∷ channels) listening =
    let rest = resubscribe reachable channels (with_element c listening) in
    if reachable c then rest else (err redis_error, listening)

-- The new connection starts with no subscription.
pub reconnect : (ConversationId → Bool) → Action Subscriber (Unit {0})
unfolding resubscribe
reconnect reachable s =
    let (result, listening) = resubscribe reachable s.channels [] in
    (result, record s { listening = listening })

-- What a read comes to: nothing in time, or a frame that is no message; a message, which may not
-- decode; or an error, after which `reachable` tells which re-subscriptions succeed.
pub data Reading : Type 0 where
  quiet : Reading
  received : Attempt Message → Reading
  failed : (ConversationId → Bool) → Reading

-- The rounds of `_run` while the subscriber is running, one for each reading: the messages that are
-- handed to local delivery, and how the task goes on. An error that leaves a round ends the task.
unfoldable pub run_reader :
    List Reading → Subscriber → List Message × (Attempt (Unit {0}) × Subscriber)
unfolding reconnect
run_reader [] s = ([], (ok tt, s))
run_reader (quiet ∷ readings) s = run_reader readings s
run_reader (received (err _) ∷ readings) s = run_reader readings s
run_reader (received (ok message) ∷ readings) s =
    let rest = run_reader readings s in
    if is_empty s.channels then rest else (message ∷ rest.0, rest.1)
run_reader (failed reachable ∷ readings) s =
    let idle = run_reader readings s in
    let reconnected = reconnect reachable s in
    let rest = run_reader readings reconnected.1 in
    if is_empty s.channels
    then idle
    else elim reconnected.0 [ ok _ ↦ rest | err e ↦ ([], (err e, reconnected.1)) ]
