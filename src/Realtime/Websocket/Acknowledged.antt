-- ===== src/Realtime/Websocket/Acknowledged.antt =====
-- That what the endpoint acknowledges is stored, where its services keep what is stored and the
-- exchange returns a stored message.
use dizzchat.Prelude.{◌≡◌, refl, subst, Bool, Option, List, [], ◌∷◌, All, Result, ok, err}
use dizzchat.Text.{Text}
use dizzchat.Errors.{Error}
use dizzchat.Storage.Session.{Action}
use dizzchat.Messaging.Conversation.{Uuid, ConversationId, ParticipantId}
use dizzchat.Messaging.Message.{Message, MessageId, SenderId, ClientMessageId}
use dizzchat.Realtime.Websocket.Preserved.{
  AcksNothing, AfterExchange, AreKept, conversation_ws-Preserves,
}
use dizzchat.Realtime.Websocket.{
  Frame, auth_ok, message_new, message_ack, error, FirstFrame, Inbound, Session, Services,
  SendMessagePayload, AuthPayload, conversation_ws,
}

module _ {S : Type 0} (IsKept : S → Message → Type 0) where
  -- A call of a service that keeps what is kept.
  abbrev pub KeepsAll : {A : Type 0} → Action S A → Type 0
  KeepsAll m = (s : S) (message : Message) → IsKept s message → IsKept (m s).1 message

  -- What each service must keep to.
  pub record AreKeeping (services : Services S) : Type 0 where
    pub ensure_keeps : (c : ConversationId) (p : ParticipantId) → KeepsAll (services.ensure c p)
    pub join_keeps : (c : ConversationId) → KeepsAll (services.join c)
    pub leave_keeps : (c : ConversationId) → KeepsAll (services.leave c)
    pub replay_keeps :
        (c : ConversationId) (last : MessageId) → KeepsAll (services.replay_since c last)
    pub allow_keeps :
        (u : Uuid) (s : S) (message : Message)
        → IsKept s message
        → IsKept (services.allow u s).1 message
    pub exchange_keeps :
        (c : ConversationId) (sender : SenderId) (content : Text) (key : Option ClientMessageId)
        → KeepsAll (services.exchange c sender content key)
    pub exchange_returns :
        (c : ConversationId) (sender : SenderId) (content : Text) (key : Option ClientMessageId)
        (s s' : S) (m : Message)
        → services.exchange c sender content key s ≡ (ok m, s')
        → IsKept s' m

  abbrev pub IsAckKept : S → Frame → Type 0
  IsAckKept app (message_ack m) = IsKept app m
  IsAckKept app auth_ok = Unit
  IsAckKept app (message_new m) = Unit
  IsAckKept app (error text) = Unit

  -- Every message that was acknowledged on the socket is kept.
  abbrev pub AcksKept : Session S → Type 0
  AcksKept s = All (IsAckKept s.app) s.sent

  still_kept :
      (app app' : S) (frames : List Frame)
      → ((message : Message) → IsKept app message → IsKept app' message)
      → All (IsAckKept app) frames
      → All (IsAckKept app') frames
  still_kept app app' [] keeps h = tt
  still_kept app app' (message_ack m ∷ frames) keeps (acked, h) =
      (keeps m acked, still_kept app app' frames keeps h)
  still_kept app app' (auth_ok ∷ frames) keeps (_, h) = (tt, still_kept app app' frames keeps h)
  still_kept app app' (message_new m ∷ frames) keeps (_, h) =
      (tt, still_kept app app' frames keeps h)
  still_kept app app' (error text ∷ frames) keeps (_, h) = (tt, still_kept app app' frames keeps h)

  -- What the endpoint's parts keep, by what its services do.
  module _ {services : Services S} (laws : AreKeeping services) where
    returned_kept :
        (c : ConversationId) (sender : SenderId) (content : Text) (key : Option ClientMessageId)
        (s : Session S) (r : Result Error Message × S)
        → services.exchange c sender content key s.app ≡ r
        → AcksKept s
        → AfterExchange AcksKept s r
    returned_kept c sender content key s r e h = go r e (
        subst (λ (r : Result Error Message × S). All (IsAckKept r.1) s.sent) e
          (still_kept s.app (services.exchange c sender content key s.app).1 s.sent
            (laws.exchange_keeps c sender content key s.app) h))
      where
        go :
            (r : Result Error Message × S)
            → services.exchange c sender content key s.app ≡ r
            → All (IsAckKept r.1) s.sent
            → AfterExchange AcksKept s r
        go (ok m, app') e kept =
            (kept, (laws.exchange_returns c sender content key s.app app' m e, kept))
        go (err x, app') e kept = kept

    send-AcksKept :
        (frame : Frame) (s : Session S)
        → AcksNothing frame
        → AcksKept s
        → AcksKept (record s { sent = frame ∷ s.sent })
    send-AcksKept auth_ok s silent h = (tt, h)
    send-AcksKept (message_new m) s silent h = (tt, h)
    send-AcksKept (error text) s silent h = (tt, h)
    send-AcksKept (message_ack m) s silent h = absurd silent

    AcksKept-AreKept : AreKept AcksKept services
    AcksKept-AreKept = record {
      ensure_keeps = λ c p s h. still_kept s.app _ s.sent (laws.ensure_keeps c p s.app) h;
      join_keeps = λ c s h. still_kept s.app _ s.sent (laws.join_keeps c s.app) h;
      leave_keeps = λ c s h. still_kept s.app _ s.sent (laws.leave_keeps c s.app) h;
      replay_keeps = λ c last s h. still_kept s.app _ s.sent (laws.replay_keeps c last s.app) h;
      allow_keeps = λ u s h. still_kept s.app _ s.sent (laws.allow_keeps u s.app) h;
      exchange_keeps = λ c sender content key s h. returned_kept c sender content key s _ refl h;
      close_keeps = λ status s h. h;
      send_keeps = send-AcksKept;
    }

    -- Where the services keep what is stored, and the exchange returns only what is stored: whatever
    -- happens on a socket, whose earlier acknowledgements are of stored messages, every message that
    -- was acknowledged on it is stored when its time ends.
    pub conversation_ws-AcksKept :
        {J : Type 0} (validate_auth : J → Option AuthPayload)
        (validate_send : J → Option SendMessagePayload) (sends : Frame → Bool) (c : ConversationId)
        (first : FirstFrame J) (inbound : List (Inbound J)) (s : Session S)
        → AcksKept s
        → AcksKept (conversation_ws services validate_auth validate_send sends c first inbound s).1
    conversation_ws-AcksKept validate_auth validate_send sends c first inbound s h =
        conversation_ws-Preserves AcksKept services validate_auth validate_send sends
          AcksKept-AreKept c first inbound s h
