-- ===== src/Tests/Realtime.antt =====
-- The theorems on a replica's sockets at concrete inputs.
use dizzchat.Prelude.{
  not, any, ◌||◌, ◌++◌, all, ◌≡◌, refl, true, false, ◌==◌, List, [], ◌∷◌, ok, err, ℕ, contains,
  if◌then◌else◌, map,
}
use dizzchat.Errors.{redis_error, value_error}
use dizzchat.Storage.Session.{Action}
use dizzchat.Realtime.ConnectionManager.{Connections, register, unregister, drop_dead, broadcast}
use dizzchat.Realtime.ConnectionManager.Sockets.{sockets, sockets-broadcast}
use dizzchat.Realtime.ConnectionManager.Transitions.{is_live}
use dizzchat.Realtime.Subscriber.{Subscriber, Reading, received, failed, subscribe, run_reader}
use dizzchat.Realtime.Subscriber.Reader.{recovers, Delivered, run_reader-Delivered, run_reader-lost}
use dizzchat.Realtime.ConversationRegistry.{Replica, empty_replica, join, leave}
use dizzchat.Realtime.ConversationRegistry.Coherence.{
  no_trouble, Reached, started, joined, left, read, Reached-covered, Reached-matched,
  leave-drop_dead,
}
use dizzchat.Tests.Fixtures.{first, second, hello_is_content}
use dizzchat.Text.{Text, text_eq}
use dizzchat.Errors.{Attempt}
use dizzchat.Realtime.MessageCodec.{Payload, Formats, IsFaithful, encode, decode, decode-encode}
use dizzchat.Realtime.FanOut.{
  Publication, broadcast_all, channels_of, readings_of, run_reader-published,
}

-- Sockets 1 and 2 in conversation 7, and socket 3 in conversation 8.
abbrev live_sockets : Connections
live_sockets = (7, 1 ∷ 2 ∷ []) ∷ (8, 3 ∷ []) ∷ []

sockets-broadcast_example :
    let after = broadcast (λ k. k == 2) 7 first live_sockets in
    (sockets 7 after.1 ≡ 2 ∷ []) × (after.0 ≡ map (λ k. (k, first)) (sockets 7 after.1))
sockets-broadcast_example = sockets-broadcast (λ k. k == 2) 7 7 first live_sockets

-- Socket 1 joins conversation 7 while Redis answers; socket 2 does while it does not.
abbrev one_socket : Replica
one_socket = (join true 7 1 empty_replica).1

one_socket-Reached : Reached no_trouble one_socket
one_socket-Reached = joined true 7 1 empty_replica started

one_socket_live : is_live 7 one_socket.connections ≡ true
unfolding join register subscribe
one_socket_live = refl

-- Then the reader comes back from a lost connection, and does not from a second one.
abbrev rounds : List Reading
rounds = failed (λ _. true) ∷ failed (λ _. false) ∷ []

abbrev after_rounds : Replica
after_rounds = record one_socket { subscriber = (run_reader rounds one_socket.subscriber).1.1 }

Reached-covered_example :
    (contains 7 after_rounds.subscriber.channels ≡ true)
    × ((not (all (recovers one_socket.subscriber.channels) rounds)
          || contains 7 after_rounds.subscriber.listening)
        ≡ true)
Reached-covered_example =
    Reached-covered 7 (read rounds one_socket one_socket-Reached) one_socket_live

Reached-matched_example :
    let after = (leave true 7 1 (join false 8 2 one_socket).1).1 in
    (contains 7 after.subscriber.channels ≡ is_live 7 after.connections)
    × ((false || (not (contains 7 after.subscriber.listening) || is_live 7 after.connections))
        ≡ true)
Reached-matched_example =
    Reached-matched 7
      (left true 7 1 (join false 8 2 one_socket).1 (joined false 8 2 one_socket one_socket-Reached))
      refl

one_socket_dropped : is_live 7 (drop_dead 7 (1 ∷ []) one_socket.connections) ≡ false
unfolding join register subscribe drop_dead unregister
one_socket_dropped = refl

leave-drop_dead_example :
    let after =
      (leave true 7 1
        (record one_socket { connections = drop_dead 7 (1 ∷ []) one_socket.connections })).1 in
    (contains 7 after.subscriber.channels ≡ true) × (is_live 7 after.connections ≡ false)
leave-drop_dead_example =
    leave-drop_dead 7 (1 ∷ []) 1 true one_socket-Reached one_socket_live one_socket_dropped

abbrev subscribed : Subscriber
subscribed = record { channels = 7 ∷ 8 ∷ []; listening = 7 ∷ 8 ∷ [] }

abbrev readings : List Reading
readings =
    received (ok first)
    ∷ failed (λ _. true)
    ∷ received (err value_error)
    ∷ received (ok second)
    ∷ []

run_reader-Delivered_example :
    Delivered (7 ∷ 8 ∷ []) (first ∷ second ∷ []) (run_reader readings subscribed)
run_reader-Delivered_example = run_reader-Delivered readings subscribed refl refl (λ c h. h)

run_reader-lost_example :
    ((run_reader (failed (λ c. c == 7) ∷ readings) subscribed).0 ≡ [])
    × ((run_reader (failed (λ c. c == 7) ∷ readings) subscribed).1.0 ≡ err redis_error)
run_reader-lost_example = run_reader-lost (λ c. c == 7) readings subscribed refl refl

-- A UUID and a time as the text of one character, and a payload as its own bytes.
abbrev parse_one : Text → Attempt ℕ
parse_one [] = err value_error
parse_one (c ∷ []) = ok c
parse_one (c ∷ d ∷ s) = err value_error

abbrev pub formats : Formats Payload
formats = record {
  uuid_str = λ id. id ∷ [];
  uuid_parse = parse_one;
  isoformat = λ t. t ∷ [];
  fromisoformat = parse_one;
  dumps = λ payload. payload;
  loads = λ payload. ok payload;
}

pub formats-IsFaithful : IsFaithful formats
formats-IsFaithful = record {
  uuid_parse_str = λ id. refl;
  fromisoformat_isoformat = λ t. refl;
  loads_dumps = λ payload. refl;
}

decode-encode_example : decode formats (encode formats second) ≡ ok second
decode-encode_example = decode-encode formats second formats-IsFaithful hello_is_content

-- A Redis that keeps what is published, and publications of which one is on a channel that the
-- subscriber does not listen to.
abbrev publish : Text → Payload → Action (List (Text × Payload)) (Unit {0})
publish channel data_ published = (ok tt, (channel, data_) ∷ published)

abbrev arrivals : List Text → List (Text × Payload) → List Payload
arrivals channels [] = []
arrivals channels ((channel, data_) ∷ published) =
    if any (text_eq channel) channels
    then arrivals channels published ++ (data_ ∷ [])
    else arrivals channels published

abbrev publications : List Publication
publications = (7, first) ∷ (9, second) ∷ (7, second) ∷ []

run_reader-published_example : Delivered (7 ∷ 8 ∷ []) (first ∷ second ∷ []) (
    run_reader
      (readings_of formats (
        arrivals
          (channels_of formats (7 ∷ 8 ∷ []))
          (broadcast_all formats publish publications []).1))
      subscribed)
run_reader-published_example =
    run_reader-published formats publish arrivals publications [] subscribed
      (record {
        publish_result = λ channel data_ r. refl;
        publish_arrivals = λ channels channel data_ r. refl;
      })
      formats-IsFaithful (hello_is_content, (hello_is_content, (hello_is_content, tt))) refl refl
      (λ c h. h)
