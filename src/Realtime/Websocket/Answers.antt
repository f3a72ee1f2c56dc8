-- ===== src/Realtime/Websocket/Answers.antt =====
-- How the receive loop answers.
use dizzchat.Prelude.{
  ℕ, suc, ◌+◌, ◌≡◌, refl, ap, ◌∙◌, Bool, true, false, Option, none, some, List, [], ◌∷◌, arith,
  length, map, ◌++◌, append-nil, subst, sym, Result, ok, err, Bool-cases, Option-cases, inl, inr,
  is_some, Result-cases,
}
use dizzchat.Text.{Text, codes}
use dizzchat.Errors.{Error, disconnected, key_error}
use dizzchat.Storage.Session.{Action, ◌>>◌, pure, resume}
use dizzchat.Messaging.Conversation.{Uuid, ConversationId}
use dizzchat.Messaging.Message.{Message, SenderId, message_content}
use dizzchat.Realtime.Websocket.{
  Frame, Inbound, text_frame, binary_frame, Session, Services, SendMessagePayload, AuthPayload,
  message_ack, error, exchange_message, handle, receive_loop, send,
}

-- A round that went well: one frame was sent, and the socket stays open.
abbrev pub OneAnswer : {S A : Type 0} → A → Session S → Result Error A × Session S → Type 0
OneAnswer a s (result, s') =
    (result ≡ ok a) × ((frame : Frame) × (s'.sent ≡ frame ∷ s.sent)) × (s'.closed ≡ s.closed)

-- A run of the loop that sent `n` frames, left the socket open and was ended by the error `e`.
abbrev pub EachAnswered :
    {S : Type 0} → Error → ℕ → Session S → Result Error (Unit {0}) × Session S → Type 0
EachAnswered e n s (result, s') =
    (result ≡ err e) × (length s'.sent ≡ n + length s.sent) × (s'.closed ≡ s.closed)

module _ {S J : Type 0} (services : Services S) (validate_auth : J → Option AuthPayload)
    (validate_send : J → Option SendMessagePayload) (sends : Frame → Bool) (c : ConversationId)
    (sender : SenderId) (token : Text) (open_ : (frame : Frame) → sends frame ≡ true)
    (valid : (s : S) → is_some (services.decode_access token s) ≡ true) where
  -- A frame that is sent, after which the block returns a value.
  answered :
      {A : Type 0} (a : A) (frame : Frame) (app : S) (s : Session S)
      → OneAnswer a s (
          (send services validate_auth validate_send sends frame >> pure a)
            (record s { app = app }))
  answered a frame app s = rw (open_ frame) (refl, (frame, refl), refl)

  exchange_message-OneAnswer :
      (content : Text) (key : Option Uuid) (app : S) (s : Session S)
      → OneAnswer true s (
          (exchange_message services validate_auth validate_send sends c sender content key
              >> pure true)
            (record s { app = app }))
  unfolding exchange_message
  exchange_message-OneAnswer content key app s = go (services.exchange c sender content key app)
    where
      go :
          (r : Result Error Message × S)
          → OneAnswer true s (
              resume
                (λ _. pure true)
                (resume
                  (λ (handled : Result Error Message). elim handled [
                    | ok m ↦ send services validate_auth validate_send sends (message_ack m)
                    | err _ ↦
                        send services validate_auth validate_send sends
                          (error (codes "failed to handle message"))
                  ])
                  (ok r.0, record s { app = r.1 })))
      go (ok m, app') = answered true (message_ack m) app' s
      go (err x, app') = answered true (error (codes "failed to handle message")) app' s

  handle-OneAnswer :
      (raw : Option J) (app : S) (s : Session S)
      → OneAnswer true s (
          handle services validate_auth validate_send sends c sender token raw
            (record s { app = app }))
  unfolding handle
  handle-OneAnswer none app s = answered true (error (codes "invalid JSON")) app s
  handle-OneAnswer (some raw) app s = elim (Option-cases (validate_send raw)) [
    | inl e ↦ rw (e, handle) (answered true (error (codes "invalid message frame")) app s)
    | inr (payload, e) ↦ elim (Result-cases (message_content payload.content)) [
      | inl (x, bad) ↦
          rw (e, handle) (rw bad (answered true (error (codes "invalid message frame")) app s))
      | inr (content, good) ↦ elim (Option-cases (services.decode_access token app)) [
        | inl none_left ↦ ground (arith, valid app)
        | inr (u, found) ↦
            rw (e, handle)
              (rw good
                (rw found (exchange_message-OneAnswer content payload.client_message_id app s)))
      ]
    ]
  ]

  -- The rest of the loop after a round that went well.
  resumed :
      (e : Error) (n : ℕ) (k : Action (Session S) (Unit {0})) (s : Session S)
      (r : Result Error Bool × Session S)
      → ((s' : Session S) → EachAnswered e n s' (k s'))
      → OneAnswer true s r
      → EachAnswered e
          (suc n)
          s
          (resume (λ (proceed : Bool). elim proceed [ true ↦ k | false ↦ pure tt ]) r)
  resumed e n k s (ok true, s') rest (same, (frame, sent), closed) =
      let after = rest s' in
      let one = ap length sent in (after.0, omega (arith, after.1, one), after.2 ∙ closed)
  resumed e n k s (ok false, s') rest (same, one, closed) = ground arith
  resumed e n k s (err x, s') rest (same, one, closed) = ground arith

  abbrev loop : List (Inbound J) → Action (Session S) (Unit {0})
  loop = receive_loop services validate_auth validate_send sends c sender token

  -- The texts that come before something at which the loop is ended by an error.
  texts-EachAnswered :
      (e : Error) (last : List (Inbound J))
      → ((s : Session S) → loop last s ≡ (err e, s))
      → (texts : List (Option J)) (s : Session S)
      → EachAnswered e (length texts) s (loop (map text_frame texts ++ last) s)
  unfolding receive_loop
  texts-EachAnswered e last ends [] s =
      subst (EachAnswered e 0 s) (sym (ends s)) (refl, omega arith, refl)
  texts-EachAnswered e last ends (raw ∷ texts) s =
      let answer = services.allow sender s.app in
      let rest = loop (map text_frame texts ++ last) in
      elim (Bool-cases answer.0) [
        | inl allowed ↦
            rw (allowed, receive_loop)
              (resumed e (length texts) rest s _ (texts-EachAnswered e last ends texts)
                (handle-OneAnswer raw answer.1 s))
        | inr limited ↦
            rw (limited, receive_loop)
              (resumed e (length texts) rest s _ (texts-EachAnswered e last ends texts)
                (answered true (error (codes "rate limit exceeded")) answer.1 s))
      ]

  -- With a token that stays valid and a socket that takes every frame, the loop answers each text
  -- that the client sends with exactly one frame, whether it is over the limit, no JSON, not a
  -- message, or its exchange succeeds or fails. It does not close the socket, and it ends only when
  -- the client disconnects, or at the first binary frame, which is not answered and raises
  -- `KeyError`, whatever comes after it.
  pub receive_loop-EachAnswered :
      (texts : List (Option J)) (later : List (Inbound J)) (s : Session S)
      → EachAnswered disconnected (length texts) s (
          receive_loop services validate_auth validate_send sends c sender token
            (map text_frame texts)
            s)
        × EachAnswered key_error (length texts) s (
            receive_loop services validate_auth validate_send sends c sender token
              (map text_frame texts ++ (binary_frame ∷ later))
              s)
  unfolding receive_loop
  receive_loop-EachAnswered texts later s = (
    subst
        (λ (inbound : List (Inbound J)).
          EachAnswered disconnected (length texts) s (loop inbound s))
        (append-nil (map text_frame texts))
        (texts-EachAnswered disconnected [] (λ s. refl) texts s),
    texts-EachAnswered key_error (binary_frame ∷ later) (λ s. refl) texts s,
  )
