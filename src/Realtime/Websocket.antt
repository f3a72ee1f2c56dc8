-- ===== src/Realtime/Websocket.antt =====
-- .../inbound/api/realtime/websocket.py and the frames of protocol.py. The services are those that
-- the endpoint is given. What the client sends is a list; its end is the disconnect. `receive_json` reads
-- the text of a message from the client, and raises `KeyError` for a binary one, which has none.
-- Pydantic's validation of a frame is an argument, as is on which frames a send succeeds.
pub mod Answers
pub mod Gate
pub mod Preserved
pub mod Replayed
pub mod Wire
pub mod Acknowledged
use dizzchat.Prelude.{
  ℕ, Bool, true, false, Option, none, some, List, [], ◌∷◌, not, Result, ok, err, if◌then◌else◌,
}
use dizzchat.Text.{Text, codes}
use dizzchat.Errors.{
  Error, messaging, in_conversation, conversation_not_found, not_conversation_participant,
  disconnected, key_error,
}
use dizzchat.Storage.Session.{Action, ◌>>=◌, ◌>>◌, pure, raise}
use dizzchat.Messaging.Conversation.{Uuid, ConversationId, ParticipantId}
use dizzchat.Messaging.Message.{Message, MessageId, SenderId, ClientMessageId, message_content}

-- The outbound frames.
pub data Frame : Type 0 where
  auth_ok : Frame
  message_new : Message → Frame
  message_ack : Message → Frame
  error : Text → Frame

pub record AuthPayload : Type 0 where
  pub token : Text
  pub last_seen_seq : Option MessageId

pub record SendMessagePayload : Type 0 where
  pub content : Text
  pub client_message_id : Option ClientMessageId

-- What waiting for the first frame comes to.
pub data FirstFrame (J : Type 0) : Type 0 where
  gone : FirstFrame J
  timed_out : FirstFrame J
  not_text : FirstFrame J
  not_json : FirstFrame J
  json : J → FirstFrame J

-- A later frame: a binary one, or a text, which is `none` where it is no JSON or `null`.
pub data Inbound (J : Type 0) : Type 0 where
  binary_frame : Inbound J
  text_frame : Option J → Inbound J

-- The services, over the application's state. `decode_access` returns the user, or nothing where it
-- raises `InvalidAccessToken`.
pub record Services (S : Type 0) : Type 1 where
  pub decode_access : Text → S → Option Uuid
  pub ensure : ConversationId → ParticipantId → Action S (Unit {0})
  pub join : ConversationId → Action S (Unit {0})
  pub leave : ConversationId → Action S (Unit {0})
  pub replay_since : ConversationId → MessageId → Action S (List Message)
  pub exchange : ConversationId → SenderId → Text → Option ClientMessageId → Action S Message
  pub allow : Uuid → S → Bool × S

-- The application's state, the frames that the endpoint itself sent on the socket, the latest first,
-- and the codes it was closed with. What broadcasts of the replica send on the same socket comes in
-- between and is not recorded here. Closing is taken to succeed, and a send that fails to find the
-- client gone.
pub record Session (S : Type 0) : Type 0 where
  pub app : S
  pub sent : List Frame
  pub closed : List ℕ

module _ {S : Type 0} where
  -- A call of a service.
  abbrev pub call : {A : Type 0} → Action S A → Action (Session S) A
  call m s = let (result, app) = m s.app in (result, record s { app = app })

  -- `try: ... except Exception`, with what was raised as a value.
  abbrev pub caught : {A : Type 0} → Action (Session S) A → Action (Session S) (Result Error A)
  caught m s = let (result, s') = m s in (ok result, s')

  abbrev pub close : ℕ → Action (Session S) (Unit {0})
  close status s = (ok tt, record s { closed = status ∷ s.closed })

module _ {S J : Type 0} (services : Services S) (validate_auth : J → Option AuthPayload)
    (validate_send : J → Option SendMessagePayload) (sends : Frame → Bool) where
  abbrev pub send : Frame → Action (Session S) (Unit {0})
  send frame s =
      if sends frame then (ok tt, record s { sent = frame ∷ s.sent }) else (err disconnected, s)

  -- The user, the token and the cursor, or nothing, the socket being closed unless it has gone. The
  -- error of a binary frame is not caught.
  unfoldable pub authenticate :
      FirstFrame J → Action (Session S) (Option (Uuid × Text × Option MessageId))
  authenticate gone = pure none
  authenticate timed_out = close 4401 >> pure none
  authenticate not_text = raise key_error
  authenticate not_json = close 4401 >> pure none
  authenticate (json raw) = λ s. elim (validate_auth raw) [
    | none ↦ (close 4401 >> pure none) s
    | some payload ↦ elim (services.decode_access payload.token s.app) [
      | none ↦ (close 4401 >> pure none) s
      | some user_id ↦ (ok (some (user_id, payload.token, payload.last_seen_seq)), s)
    ]
  ]

  pub send_all : List Message → Action (Session S) (Unit {0})
  send_all [] = pure tt
  send_all (message ∷ missed) = send (message_new message) >> send_all missed

  pub replay_missed : ConversationId → Option MessageId → Action (Session S) (Unit {0})
  replay_missed conversation none = pure tt
  replay_missed conversation (some last_seen_seq) = do
    missed ← call (services.replay_since conversation last_seen_seq)
    send_all missed

  -- The last part of a round: the message's exchange, and its answer.
  pub exchange_message :
      ConversationId → SenderId → Text → Option ClientMessageId → Action (Session S) (Unit {0})
  exchange_message conversation sender_id content client_message_id = do
    handled ← caught (call (services.exchange conversation sender_id content client_message_id))
    elim handled [
      | ok user_message ↦ send (message_ack user_message)
      | err _ ↦ send (error (codes "failed to handle message"))
    ]

  -- A round behind the rate limit, for a payload that is no JSON or a value. It returns whether the
  -- loop goes on.
  unfoldable pub handle : ConversationId → SenderId → Text → Option J → Action (Session S) Bool
  unfolding exchange_message
  handle conversation sender_id token none = send (error (codes "invalid JSON")) >> pure true
  handle conversation sender_id token (some raw) = elim (validate_send raw) [
    | none ↦ send (error (codes "invalid message frame")) >> pure true
    | some payload ↦ elim (message_content payload.content) [
      | err _ ↦ send (error (codes "invalid message frame")) >> pure true
      | ok content ↦ λ s. elim (services.decode_access token s.app) [
        | none ↦ (close 4401 >> pure false) s
        | some _ ↦
            (exchange_message conversation sender_id content payload.client_message_id >> pure true)
              s
      ]
    ]
  ]

  pub receive_loop :
      ConversationId → SenderId → Text → List (Inbound J) → Action (Session S) (Unit {0})
  unfolding handle
  receive_loop conversation sender_id token [] = raise disconnected
  receive_loop conversation sender_id token (binary_frame ∷ inbound) = raise key_error
  receive_loop conversation sender_id token (text_frame raw ∷ inbound) = do
    allowed ← λ s.
        let (answer, app) = services.allow sender_id s.app in (ok answer, record s { app = app })
    proceed ←
        if allowed
        then handle conversation sender_id token raw
        else (send (error (codes "rate limit exceeded")) >> pure true)
    elim proceed [ true ↦ receive_loop conversation sender_id token inbound | false ↦ pure tt ]

  -- `except WebSocketDisconnect: pass`, and `except Exception`.
  abbrev pub ended : Result Error (Unit {0}) → Action (Session S) (Unit {0})
  ended (ok _) = pure tt
  ended (err disconnected) = pure tt
  ended (err _) = close 1011

  -- The socket's time in the conversation, with what is done `finally`.
  pub converse :
      ConversationId
      → Uuid
      → Text
      → Option MessageId
      → List (Inbound J)
      → Action (Session S) (Unit {0})
  unfolding replay_missed receive_loop
  converse conversation user_id token last_seen_seq inbound = do
    outcome ← caught (
        replay_missed conversation last_seen_seq >> receive_loop conversation user_id token inbound)
    ended outcome
    call (services.leave conversation)

  -- `except (ConversationNotFound, NotConversationParticipant)`: any other error goes on.
  abbrev pub turned_away : Error → Action (Session S) (Unit {0})
  turned_away (messaging (in_conversation (conversation_not_found c))) = close 4403
  turned_away (messaging (in_conversation not_conversation_participant)) = close 4403
  turned_away e = raise e

  pub enter :
      ConversationId
      → Uuid
      → Text
      → Option MessageId
      → List (Inbound J)
      → Action (Session S) (Unit {0})
  unfolding converse
  enter conversation user_id token last_seen_seq inbound = do
    ensured ← caught (call (services.ensure conversation user_id))
    elim ensured [
      | err e ↦ turned_away e
      | ok _ ↦ do
        send auth_ok
        joined ← caught (call (services.join conversation))
        elim joined [
          | err _ ↦ close 1011
          | ok _ ↦ converse conversation user_id token last_seen_seq inbound
        ]
    ]

  pub conversation_ws :
      ConversationId → FirstFrame J → List (Inbound J) → Action (Session S) (Unit {0})
  unfolding authenticate enter
  conversation_ws conversation first inbound = do
    authenticated ← authenticate first
    elim authenticated [
      | none ↦ pure tt
      | some (user_id, token, last_seen_seq) ↦
          enter conversation user_id token last_seen_seq inbound
    ]
