-- ===== src/Tests/Sockets.antt =====
-- The theorems on the WebSocket endpoint at concrete inputs. The application's state is a list of
-- the calls of its services, the latest first; a raw frame is a number.
use dizzchat.Prelude.{
  ℕ, ◌≡◌, refl, true, none, some, Option, List, map, ◌++◌, [], ◌∷◌, ok, err, ◌==◌, if◌then◌else◌,
}
use dizzchat.Text.{codes}
use dizzchat.Errors.{disconnected, key_error, conversation_error, not_conversation_participant}
use dizzchat.Realtime.Websocket.{
  json, Inbound, text_frame, binary_frame, Session, Services, SendMessagePayload, AuthPayload,
  conversation_ws, receive_loop, authenticate,
}
use dizzchat.Realtime.Websocket.Answers.{EachAnswered, receive_loop-EachAnswered}
use dizzchat.Realtime.Websocket.Gate.{admitted, conversation_ws-refused, conversation_ws-leaves}
use dizzchat.Tests.Fixtures.{first, hello}

-- Calls: 1 a check, 2 a join, 3 a leave, 4 a replay, 5 an exchange, 6 a count of the limiter. User 9
-- takes part in no conversation.
abbrev pub recording : Services (List ℕ)
recording = record {
  decode_access = λ token calls. some 1;
  ensure = λ c u calls.
      (if u == 1 then ok tt else err (conversation_error not_conversation_participant), 1 ∷ calls);
  join = λ c calls. (ok tt, 2 ∷ calls);
  leave = λ c calls. (ok tt, 3 ∷ calls);
  replay_since = λ c after calls. (ok (first ∷ []), 4 ∷ calls);
  exchange = λ c u content key calls. (ok first, 5 ∷ calls);
  allow = λ u calls. (true, 6 ∷ calls);
}

-- The number 0 is an authentication, and 1 a message.
abbrev auth_by_number : ℕ → Option AuthPayload
auth_by_number raw =
    if raw == 0 then some record { token = codes "t"; last_seen_seq = some 0 } else none

abbrev message_by_number : ℕ → Option SendMessagePayload
message_by_number raw =
    if raw == 1 then some record { content = hello; client_message_id = none } else none

abbrev pub fresh : Session (List ℕ)
fresh = record { app = []; sent = []; closed = [] }

abbrev texts : List (Option ℕ)
texts = some 1 ∷ none ∷ some 2 ∷ []

abbrev inbound : List (Inbound ℕ)
inbound = map text_frame texts

receive_loop-EachAnswered_example :
    EachAnswered disconnected 3 fresh (
      receive_loop recording auth_by_number message_by_number
        (λ _. true)
        7
        1
        (codes "t")
        (map text_frame texts)
        fresh)
    × EachAnswered key_error 3 fresh (
        receive_loop recording auth_by_number message_by_number
          (λ _. true)
          7
          1
          (codes "t")
          (map text_frame texts ++ (binary_frame ∷ inbound))
          fresh)
receive_loop-EachAnswered_example =
    receive_loop-EachAnswered recording auth_by_number message_by_number (λ _. true) 7 1 (codes "t")
      (λ frame. refl) (λ calls. refl) texts inbound fresh

refused_first : admitted recording auth_by_number message_by_number (λ _. true) (json 1) [] ≡ none
unfolding admitted
refused_first = refl

conversation_ws-refused_example :
    conversation_ws recording auth_by_number message_by_number (λ _. true) 7 (json 1) inbound fresh
    ≡ (ok tt, record { app = []; sent = []; closed = 4401 ∷ [] })
conversation_ws-refused_example =
    conversation_ws-refused recording auth_by_number message_by_number (λ _. true) 7 (json 1)
      inbound fresh refused_first

admitted_first :
    authenticate recording auth_by_number message_by_number (λ _. true) (json 0) fresh
    ≡ (ok (some (1, codes "t", some 0)), fresh)
unfolding authenticate
admitted_first = refl

conversation_ws-leaves_example :
    let after =
      conversation_ws recording auth_by_number message_by_number
        (λ _. true)
        7
        (json 0)
        inbound
        fresh in
    (calls : List ℕ) × (after.0 ≡ ok tt) × (after.1.app ≡ 3 ∷ calls)
conversation_ws-leaves_example =
    conversation_ws-leaves recording auth_by_number message_by_number (λ _. true) 7 (json 0) inbound
      fresh 1 (codes "t") (some 0) (1 ∷ []) (2 ∷ 1 ∷ []) admitted_first refl refl refl
