-- ===== src/Realtime/Websocket/Preserved.antt =====
-- That the endpoint keeps whatever its services, its answers and its closings keep.
use dizzchat.Prelude.{
  ℕ, subst, Bool, true, false, Option, none, some, List, [], ◌∷◌, Result, ok, err, if◌then◌else◌,
  Bool-cases, Option-cases, Result-cases, inl, inr,
}
use dizzchat.Text.{Text, codes}
use dizzchat.Errors.{
  Error, messaging, in_conversation, conversation_not_found, not_conversation_participant,
  disconnected,
}
use dizzchat.Storage.Session.{Action, ◌>>=◌, ◌>>◌, pure, after, resume}
use dizzchat.Messaging.Conversation.{Uuid, ConversationId, ParticipantId}
use dizzchat.Messaging.Message.{Message, MessageId, SenderId, ClientMessageId, message_content}
use dizzchat.Realtime.Websocket.{
  Frame, auth_ok, message_new, message_ack, error, FirstFrame, Inbound, gone, timed_out, not_text,
  not_json, json, binary_frame, text_frame, Session, Services, SendMessagePayload, AuthPayload,
  call, caught, close, send, authenticate, send_all, replay_missed, exchange_message, handle,
  receive_loop, ended, converse, turned_away, enter, conversation_ws,
}

-- A frame that acknowledges nothing.
abbrev pub AcksNothing : Frame → Type 0
AcksNothing (message_ack m) = ⊥
AcksNothing auth_ok = Unit
AcksNothing (message_new m) = Unit
AcksNothing (error text) = Unit

module _ {S : Type 0} (I : Session S → Type 0) where
  -- Whatever a block comes to, what held before it holds after it.
  abbrev pub Preserves : {A : Type 0} → Action (Session S) A → Type 0
  Preserves m = (s : Session S) → I s → I (m s).1

  pub Preserves-bind :
      {A B : Type 0} (m : Action (Session S) A) (k : A → Action (Session S) B)
      → Preserves m
      → ((a : A) → Preserves (k a))
      → Preserves (m >>= k)
  Preserves-bind m k first rest s h =
      after (λ r. I r.1) m k s (λ a s' e. rest a s' (subst (λ r. I r.1) e (first s h)))
        (λ e s' raised. subst (λ r. I r.1) raised (first s h))

  -- A message's exchange, whose message is acknowledged where it returns one.
  abbrev pub AfterExchange : Session S → Result Error Message × S → Type 0
  AfterExchange s (ok m, app) =
      I (record s { app = app }) × I (record s { app = app; sent = message_ack m ∷ s.sent })
  AfterExchange s (err e, app) = I (record s { app = app })

  -- What each part of the endpoint must keep.
  pub record AreKept (services : Services S) : Type 0 where
    pub ensure_keeps :
        (c : ConversationId) (p : ParticipantId) → Preserves (call (services.ensure c p))
    pub join_keeps : (c : ConversationId) → Preserves (call (services.join c))
    pub leave_keeps : (c : ConversationId) → Preserves (call (services.leave c))
    pub replay_keeps :
        (c : ConversationId) (last : MessageId) → Preserves (call (services.replay_since c last))
    pub allow_keeps :
        (u : Uuid) (s : Session S) → I s → I (record s { app = (services.allow u s.app).1 })
    pub exchange_keeps :
        (c : ConversationId) (sender : SenderId) (content : Text) (key : Option ClientMessageId)
        (s : Session S)
        → I s
        → AfterExchange s (services.exchange c sender content key s.app)
    pub close_keeps : (status : ℕ) → Preserves (close status)
    pub send_keeps :
        (frame : Frame) (s : Session S)
        → AcksNothing frame
        → I s
        → I (record s { sent = frame ∷ s.sent })

  module _ {J : Type 0} (services : Services S) (validate_auth : J → Option AuthPayload)
      (validate_send : J → Option SendMessagePayload) (sends : Frame → Bool)
      (laws : AreKept services) where
    send-Preserves :
        (frame : Frame) (s : Session S)
        → AcksNothing frame
        → I s
        → I (send services validate_auth validate_send sends frame s).1
    send-Preserves frame s silent h = elim (Bool-cases (sends frame)) [
      | inl sent ↦ rw sent (laws.send_keeps frame s silent h)
      | inr lost ↦ rw lost h
    ]

    exchange_message-Preserves :
        (c : ConversationId) (sender : SenderId) (content : Text) (key : Option ClientMessageId)
        → Preserves
            (exchange_message services validate_auth validate_send sends c sender content key)
    unfolding exchange_message
    exchange_message-Preserves c sender content key s h =
        go (services.exchange c sender content key s.app)
          (laws.exchange_keeps c sender content key s h)
      where
        go :
            (r : Result Error Message × S)
            → AfterExchange s r
            → I
                (resume
                  (λ (handled : Result Error Message). elim handled [
                    | ok m ↦ send services validate_auth validate_send sends (message_ack m)
                    | err _ ↦
                        send services validate_auth validate_send sends
                          (error (codes "failed to handle message"))
                  ])
                  (ok r.0, record s { app = r.1 })).1
        go (ok m, app') kept = elim (Bool-cases (sends (message_ack m))) [
          | inl sent ↦ rw sent kept.1
          | inr lost ↦ rw lost kept.0
        ]
        go (err x, app') kept =
            send-Preserves (error (codes "failed to handle message")) (record s { app = app' }) tt
              kept

    answered-Preserves :
        (text : Text)
        → Preserves
            (send services validate_auth validate_send sends (error text) >> pure {A = Bool} true)
    answered-Preserves text =
        Preserves-bind (send services validate_auth validate_send sends (error text)) _
          (λ s h. send-Preserves (error text) s tt h) (λ _ s h. h)

    handle-Preserves :
        (c : ConversationId) (sender : SenderId) (token : Text) (raw : Option J)
        → Preserves (handle services validate_auth validate_send sends c sender token raw)
    unfolding handle
    handle-Preserves c sender token none s h = answered-Preserves (codes "invalid JSON") s h
    handle-Preserves c sender token (some raw) s h = elim (Option-cases (validate_send raw)) [
      | inl bad ↦ rw (bad, handle) (answered-Preserves (codes "invalid message frame") s h)
      | inr (payload, good) ↦ elim (Result-cases (message_content payload.content)) [
        | inl (e, blank) ↦
            rw (good, handle) (rw blank (answered-Preserves (codes "invalid message frame") s h))
        | inr (content, filled) ↦ elim (Option-cases (services.decode_access token s.app)) [
          | inl expired ↦ rw (good, handle) (rw filled (rw expired (laws.close_keeps 4401 s h)))
          | inr (u, valid) ↦
              rw (good, handle)
                (rw filled (
                  rw valid (
                    Preserves-bind
                      (exchange_message services validate_auth validate_send sends c sender content
                        payload.client_message_id)
                      _ (exchange_message-Preserves c sender content payload.client_message_id)
                      (λ _ s h. h) s h)))
        ]
      ]
    ]

    pub receive_loop-Preserves :
        (c : ConversationId) (sender : SenderId) (token : Text) (inbound : List (Inbound J))
        → Preserves (receive_loop services validate_auth validate_send sends c sender token inbound)
    unfolding receive_loop
    receive_loop-Preserves c sender token [] s h = h
    receive_loop-Preserves c sender token (binary_frame ∷ inbound) s h = h
    receive_loop-Preserves c sender token (text_frame raw ∷ inbound) s h =
        let (allowed, app) = services.allow sender s.app in
        Preserves-bind
          (if allowed
            then handle services validate_auth validate_send sends c sender token raw
            else (send services validate_auth validate_send sends
                  (error (codes "rate limit exceeded"))
                >> pure true))
          (λ (proceed : Bool). elim proceed [
            | true ↦ receive_loop services validate_auth validate_send sends c sender token inbound
            | false ↦ pure tt
          ])
          (round allowed) (next (receive_loop-Preserves c sender token inbound))
          (record s { app = app }) (laws.allow_keeps sender s h)
      where
        round :
            (allowed : Bool)
            → Preserves (
                if allowed
                then handle services validate_auth validate_send sends c sender token raw
                else (send services validate_auth validate_send sends
                      (error (codes "rate limit exceeded"))
                    >> pure true))
        round true = handle-Preserves c sender token raw
        round false = answered-Preserves (codes "rate limit exceeded")

        next :
            Preserves
              (receive_loop services validate_auth validate_send sends c sender token inbound)
            → (proceed : Bool)
            → Preserves (elim proceed [
              | true ↦
                  receive_loop services validate_auth validate_send sends c sender token inbound
              | false ↦ pure {A = Unit {0}} tt
            ])
        next rest true = rest
        next rest false = λ s h. h

    send_all-Preserves :
        (missed : List Message)
        → Preserves (send_all services validate_auth validate_send sends missed)
    unfolding send_all
    send_all-Preserves [] = λ s h. h
    send_all-Preserves (message ∷ missed) =
        Preserves-bind (send services validate_auth validate_send sends (message_new message)) _
          (λ s h. send-Preserves (message_new message) s tt h) (λ _. send_all-Preserves missed)

    replay_missed-Preserves :
        (c : ConversationId) (last : Option MessageId)
        → Preserves (replay_missed services validate_auth validate_send sends c last)
    unfolding replay_missed
    replay_missed-Preserves c none = λ s h. h
    replay_missed-Preserves c (some last) =
        Preserves-bind (call (services.replay_since c last)) _ (laws.replay_keeps c last)
          send_all-Preserves

    pub ended-Preserves :
        (outcome : Result Error (Unit {0}))
        → Preserves (ended services validate_auth validate_send sends outcome)
    ended-Preserves (ok _) = λ s h. h
    ended-Preserves (err disconnected) = λ s h. h
    ended-Preserves (err _) = laws.close_keeps 1011

    -- `try: ... except Exception` is no other state.
    converse-Preserves :
        (c : ConversationId) (u : Uuid) (token : Text) (last : Option MessageId)
        (inbound : List (Inbound J))
        → Preserves (converse services validate_auth validate_send sends c u token last inbound)
    unfolding converse
    converse-Preserves c u token last inbound s h =
        let served =
          Preserves-bind (replay_missed services validate_auth validate_send sends c last)
            (λ _. receive_loop services validate_auth validate_send sends c u token inbound)
            (replay_missed-Preserves c last) (λ _. receive_loop-Preserves c u token inbound) s h in
        let (outcome, s') =
          (replay_missed services validate_auth validate_send sends c last
              >> receive_loop services validate_auth validate_send sends c u token inbound)
            s in
        Preserves-bind (ended services validate_auth validate_send sends outcome)
          (λ _. call (services.leave c)) (ended-Preserves outcome) (λ _. laws.leave_keeps c) s'
          served

    turned_away-Preserves :
        (e : Error) → Preserves (turned_away services validate_auth validate_send sends e)
    turned_away-Preserves (messaging (in_conversation (conversation_not_found c))) =
        laws.close_keeps 4403
    turned_away-Preserves (messaging (in_conversation not_conversation_participant)) =
        laws.close_keeps 4403
    turned_away-Preserves _ = λ s h. h

    enter-Preserves :
        (c : ConversationId) (u : Uuid) (token : Text) (last : Option MessageId)
        (inbound : List (Inbound J))
        → Preserves (enter services validate_auth validate_send sends c u token last inbound)
    unfolding enter
    enter-Preserves c u token last inbound s h =
        allowed_in (services.ensure c u s.app).0 (record s { app = (services.ensure c u s.app).1 })
          (laws.ensure_keeps c u s h)
      where
        joined :
            (outcome : Result Error (Unit {0}))
            → Preserves (elim outcome [
              | err _ ↦ close 1011
              | ok _ ↦ converse services validate_auth validate_send sends c u token last inbound
            ])
        joined (err e) = laws.close_keeps 1011
        joined (ok _) = converse-Preserves c u token last inbound

        allowed_in :
            (outcome : Result Error (Unit {0}))
            → Preserves (elim outcome [
              | err e ↦ turned_away services validate_auth validate_send sends e
              | ok _ ↦ do
                send services validate_auth validate_send sends auth_ok
                joined ← caught (call (services.join c))
                elim joined [
                  | err _ ↦ close 1011
                  | ok _ ↦
                      converse services validate_auth validate_send sends c u token last inbound
                ]
            ])
        allowed_in (err e) = turned_away-Preserves e
        allowed_in (ok _) =
            Preserves-bind (send services validate_auth validate_send sends auth_ok) _
              (λ s h. send-Preserves auth_ok s tt h)
              (λ _ s h.
                joined (services.join c s.app).0 (record s { app = (services.join c s.app).1 })
                  (laws.join_keeps c s h))

    pub conversation_ws-Preserves :
        (c : ConversationId) (first : FirstFrame J) (inbound : List (Inbound J))
        → Preserves (conversation_ws services validate_auth validate_send sends c first inbound)
    unfolding conversation_ws authenticate
    conversation_ws-Preserves c gone inbound s h = h
    conversation_ws-Preserves c timed_out inbound s h = laws.close_keeps 4401 s h
    conversation_ws-Preserves c not_text inbound s h = h
    conversation_ws-Preserves c not_json inbound s h = laws.close_keeps 4401 s h
    conversation_ws-Preserves c (json raw) inbound s h = elim (Option-cases (validate_auth raw)) [
      | inl bad ↦ rw (bad, conversation_ws, authenticate) (laws.close_keeps 4401 s h)
      | inr (payload, good) ↦ elim (Option-cases (services.decode_access payload.token s.app)) [
        | inl refused ↦
            rw (good, conversation_ws, authenticate) (rw refused (laws.close_keeps 4401 s h))
        | inr (u, known) ↦
            rw (good, conversation_ws, authenticate)
              (rw known (enter-Preserves c u payload.token payload.last_seen_seq inbound s h))
      ]
    ]
