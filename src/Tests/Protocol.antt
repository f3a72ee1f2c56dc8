-- ===== src/Tests/Protocol.antt =====
-- The theorems on the JSON of the frames at concrete inputs. Pydantic reads a number as an integer,
-- and a text of one character as a UUID.
use dizzchat.Prelude.{◌≡◌, refl, true, none, some, Option, [], ◌∷◌, ok}
use dizzchat.Text.{codes, text_eq}
use dizzchat.Messaging.Message.{MessageId, ClientMessageId}
use dizzchat.Realtime.Websocket.{json, message_ack, error, conversation_ws, handle}
use dizzchat.Realtime.Protocol.{
  Json, number, string, object, ◌=:◌, ◌&◌, to_json, Pydantic, validate_auth, validate_send, raw_of,
}
use dizzchat.Realtime.Protocol.Layout.{SaysTheSame, to_json-SaysTheSame}
use dizzchat.Realtime.Protocol.Misplaced.{misplaced_frames}
use dizzchat.Tests.Fixtures.{second, hello}
use dizzchat.Tests.Realtime.{formats, formats-IsFaithful}
use dizzchat.Tests.Sockets.{recording, fresh}

abbrev int : Json → Option MessageId
int (number n) = some n
int _ = none

abbrev uuid : Json → Option ClientMessageId
uuid (string (c ∷ [])) = some c
uuid _ = none

abbrev pydantic : Pydantic
pydantic = record { int = int; uuid = uuid }

abbrev auth_frame : Json
auth_frame = object (
    codes "type" =: string (codes "auth")
    & codes "payload"
      =: object (codes "token" =: string (codes "t") & codes "last_seen_seq" =: number 3))

abbrev send_frame : Json
send_frame = object (
    codes "type" =: string (codes "message.send")
    & codes "payload"
      =: object (codes "content" =: string hello & codes "client_message_id" =: string (55 ∷ [])))

login_reads :
    validate_auth pydantic auth_frame ≡ some record { token = codes "t"; last_seen_seq = some 3 }
unfolding validate_auth text_eq
login_reads = refl

message_reads :
    validate_send pydantic send_frame ≡ some record { content = hello; client_message_id = some 55 }
unfolding validate_send text_eq
message_reads = refl

-- A field that is missing or of another type.
no_token :
    validate_auth pydantic (
      object (
        codes "type" =: string (codes "auth")
        & codes "payload" =: object (codes "token" =: number 5)))
    ≡ none
unfolding validate_auth text_eq
no_token = refl

second_frame :
    to_json formats (message_ack second)
    ≡ object (
        codes "type" =: string (codes "message.ack")
        & codes "payload"
          =: object (
              codes "id" =: number 4
              & codes "client_message_id" =: string (55 ∷ [])
              & codes "created_at" =: string (110 ∷ [])))
unfolding to_json
second_frame = refl

to_json-SaysTheSame_example : SaysTheSame (message_ack second) (message_ack second)
to_json-SaysTheSame_example =
    to_json-SaysTheSame formats formats-IsFaithful (message_ack second) (message_ack second) refl

misplaced_frames_example :
    (conversation_ws recording
        (validate_auth pydantic)
        (validate_send pydantic)
        (λ _. true)
        7
        (json send_frame)
        []
        fresh
      ≡ (ok tt, record fresh { closed = 4401 ∷ [] }))
    × (handle recording
          (validate_auth pydantic)
          (validate_send pydantic)
          (λ _. true)
          7
          1
          (codes "t")
          (raw_of (some auth_frame))
          fresh
        ≡ (ok true, record fresh { sent = error (codes "invalid message frame") ∷ [] }))
misplaced_frames_example =
    misplaced_frames recording pydantic (λ _. true) 7 1 (codes "t") send_frame auth_frame [] fresh
      message_reads login_reads
