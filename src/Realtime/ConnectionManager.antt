-- ===== src/Realtime/ConnectionManager.antt =====
-- .../inbound/api/realtime/connection_manager.py. A socket is a number, by which sets tell sockets
-- apart, and a set is a list without repetitions.
pub mod Sockets
pub mod Transitions
use dizzchat.Prelude.{
  ℕ, Bool, true, false, Option, none, some, List, [], ◌∷◌, ◌++◌, map, not, filter, is_empty,
  if◌then◌else◌, lookup, set_at, remove_key, or_empty, with_element, without_element,
}
use dizzchat.Messaging.Conversation.{ConversationId}
use dizzchat.Messaging.Message.{Message}

abbrev pub Connection : Type 0
Connection = ℕ

abbrev pub Connections : Type 0
Connections = List (ConversationId × List Connection)

-- The connections, and whether this is the first socket of its conversation.
unfoldable pub register : ConversationId → Connection → Connections → Bool × Connections
register conversation_id connection connections =
    let sockets = or_empty (lookup conversation_id connections) in
    (is_empty sockets, set_at conversation_id (with_element connection sockets) connections)

-- What `unregister` does with the set that it found, once the socket is discarded.
abbrev pub put_back : ConversationId → List Connection → Connections → Bool × Connections
put_back conversation_id [] connections = (true, remove_key conversation_id connections)
put_back conversation_id (s ∷ rest) connections =
    (false, set_at conversation_id (s ∷ rest) connections)

-- The connections, and whether this was the last socket of its conversation.
unfoldable pub unregister : ConversationId → Connection → Connections → Bool × Connections
unregister conversation_id connection connections = elim (lookup conversation_id connections) [
  | none ↦ (false, connections)
  | some sockets ↦ put_back conversation_id (without_element connection sockets) connections
]

-- `for connection in dead: self.unregister(...)`
unfoldable pub drop_dead : ConversationId → List Connection → Connections → Connections
drop_dead conversation_id [] connections = connections
drop_dead conversation_id (connection ∷ dead) connections =
    drop_dead conversation_id dead (unregister conversation_id connection connections).1

-- The sockets that the frame was sent on, and the connections. `open_` tells on which sockets a send
-- succeeds; what other tasks do while a send is awaited comes in between as steps of their own.
pub broadcast :
    (Connection → Bool)
    → ConversationId
    → Message
    → Connections
    → List (Connection × Message) × Connections
unfolding drop_dead
broadcast open_ conversation_id message connections =
    let sockets = or_empty (lookup conversation_id connections) in
    (
      map (λ connection. (connection, message)) (filter open_ sockets),
      drop_dead conversation_id (filter (λ connection. not (open_ connection)) sockets) connections,
    )

-- How closing a socket goes: it returns, raises, or is still waited for when the time is up.
pub data Closing : Type 0 where
  closes raises hangs : Closing

-- `for connections in list(self._connections.values()): for connection in list(connections)`
abbrev pub all_sockets : Connections → List Connection
all_sockets [] = []
all_sockets ((_, sockets) ∷ connections) = sockets ++ all_sockets connections

-- The sockets whose closing was begun, and whether the loop came to its end.
unfoldable pub close_each : (Connection → Closing) → List Connection → List Connection × Bool
close_each closing [] = ([], true)
close_each closing (connection ∷ sockets) =
    let rest = close_each closing sockets in
    elim (closing connection) [
      | hangs ↦ (connection ∷ [], false)
      | closes ↦ (connection ∷ rest.0, rest.1)
      | raises ↦ (connection ∷ rest.0, rest.1)
    ]

-- The sockets whose closing was begun, whether `close_all` returned in time, and what is left.
unfoldable pub close_all :
    (Connection → Closing) → Connections → List Connection × (Bool × Connections)
unfolding close_each
close_all closing connections =
    let (begun, returned) = close_each closing (all_sockets connections) in
    (begun, (returned, if returned then [] else connections))
