-- ===== src/Realtime/ConversationRegistry.antt =====
-- .../inbound/api/realtime/conversation_registry.py, with the manager and the subscriber that it
-- drives as one replica's state. The lock makes a join and a leave single steps.
pub mod Kept
pub mod Coherence
use dizzchat.Prelude.{Bool, true, false, List, [], Result, ok, err, if◌then◌else◌}
use dizzchat.Errors.{Attempt, Error}
use dizzchat.Storage.Session.{Action}
use dizzchat.Messaging.Conversation.{ConversationId}
use dizzchat.Realtime.ConnectionManager.{Connection, Connections, register, unregister}
use dizzchat.Realtime.Subscriber.{Subscriber, subscribe, unsubscribe}

pub record Replica : Type 0 where
  pub connections : Connections
  pub subscriber : Subscriber

abbrev pub empty_replica : Replica
empty_replica = record { connections = []; subscriber = record { channels = []; listening = [] } }

-- What `join` does once the subscription was tried: an error takes the registration back.
abbrev pub rolled_back :
    ConversationId
    → Connection
    → Connections
    → Attempt (Unit {0})
    → Subscriber
    → Attempt (Unit {0}) × Replica
rolled_back c connection connections (ok _) subscriber =
    (ok tt, record { connections = connections; subscriber = subscriber })
rolled_back c connection connections (err e) subscriber = (
  err e,
  record { connections = (unregister c connection connections).1; subscriber = subscriber },
)

unfoldable pub join : Bool → ConversationId → Connection → Action Replica (Unit {0})
join reachable conversation_id connection r =
    let registered = register conversation_id connection r.connections in
    let subscribed = subscribe reachable conversation_id r.subscriber in
    if registered.0
    then rolled_back conversation_id connection registered.1 subscribed.0 subscribed.1
    else (ok tt, record r { connections = registered.1 })

pub leave : Bool → ConversationId → Connection → Action Replica (Unit {0})
leave reachable conversation_id connection r =
    let unregistered = unregister conversation_id connection r.connections in
    let unsubscribed = unsubscribe reachable conversation_id r.subscriber in
    if unregistered.0
    then (unsubscribed.0, record { connections = unregistered.1; subscriber = unsubscribed.1 })
    else (ok tt, record r { connections = unregistered.1 })
