-- ===== src/Realtime/Protocol/Misplaced.antt =====
-- The endpoint on frames of the other kind than the one it waits for.
use dizzchat.Prelude.{
  ◌≡◌, refl, Bool, true, false, Option, none, some, List, ◌∷◌, arith, ok, err, if◌then◌else◌,
  Option-cases, inl, inr,
}
use dizzchat.Text.{Text, codes, text_eq, text_eq_iff}
use dizzchat.Errors.{disconnected}
use dizzchat.Messaging.Conversation.{ConversationId}
use dizzchat.Messaging.Message.{SenderId}
use dizzchat.Realtime.Websocket.{
  Frame, Inbound, error, json, Services, Session, SendMessagePayload, AuthPayload, handle,
  conversation_ws,
}
use dizzchat.Realtime.Websocket.Gate.{admitted, conversation_ws-refused}
use dizzchat.Realtime.Protocol.{
  Json, null, boolean, number, other_number, string, array, object, get_field, literal, Pydantic,
  frame_of, auth_payload, send_message_payload, validate_auth, validate_send, raw_of,
}

-- A value has at most one type.
literal-one :
    (name other : Text) (value : Json)
    → text_eq name other ≡ false
    → literal name value ≡ some tt
    → literal other value ≡ none
literal-one name other (string found) apart e =
    ground (arith, text_eq_iff found name, text_eq_iff found other, text_eq_iff name other)
literal-one name other null apart e = cc
literal-one name other (boolean _) apart e = cc
literal-one name other (number _) apart e = cc
literal-one name other (other_number _) apart e = cc
literal-one name other (array _) apart e = cc
literal-one name other (object _) apart e = cc

frame_of-one {ℓ κ} :
    {A : Type ℓ} {B : Type κ} (name other : Text) (p : Json → Option A) (q : Json → Option B)
    (raw : Json) {a : A}
    → text_eq name other ≡ false
    → frame_of name p raw ≡ some a
    → frame_of other q raw ≡ none
unfolding frame_of
frame_of-one name other p q (object fields) apart e =
    elim (Option-cases (get_field (codes "type") fields)) [
      | inl missing ↦ rw missing refl
      | inr (value, found) ↦ elim (Option-cases (literal name value)) [
        | inl no_literal ↦
            let bad : frame_of name p (object fields) ≡ none = rw found (rw no_literal refl) in
            cc (e, bad)
        | inr (_, is_literal) ↦ rw found (rw (literal-one name other value apart is_literal) refl)
      ]
    ]
frame_of-one name other p q null apart e = refl
frame_of-one name other p q (boolean _) apart e = refl
frame_of-one name other p q (number _) apart e = refl
frame_of-one name other p q (other_number _) apart e = refl
frame_of-one name other p q (string _) apart e = refl
frame_of-one name other p q (array _) apart e = refl

-- No value is read as a frame of both kinds.
no_login_of :
    (pydantic : Pydantic) (raw : Json) {sent : SendMessagePayload}
    → validate_send pydantic raw ≡ some sent
    → validate_auth pydantic raw ≡ none
unfolding validate_auth validate_send text_eq
no_login_of pydantic raw e =
    frame_of-one (codes "message.send") (codes "auth") (send_message_payload pydantic)
      (auth_payload pydantic) raw refl e

no_message_of :
    (pydantic : Pydantic) (raw : Json) {login : AuthPayload}
    → validate_auth pydantic raw ≡ some login
    → validate_send pydantic raw ≡ none
unfolding validate_auth validate_send text_eq
no_message_of pydantic raw e =
    frame_of-one (codes "auth") (codes "message.send") (auth_payload pydantic)
      (send_message_payload pydantic) raw refl e

-- An auth frame is not `null`.
raw_of-login :
    (pydantic : Pydantic) (raw : Json) {login : AuthPayload}
    → validate_auth pydantic raw ≡ some login
    → raw_of (some raw) ≡ some raw
unfolding validate_auth
raw_of-login pydantic null e = cc
raw_of-login pydantic raw e = refl

module _ {S : Type 0} (services : Services S) (pydantic : Pydantic) (sends : Frame → Bool) where
  -- A message frame in place of the first frame closes the socket with 4401, with nothing sent and
  -- no service called; an auth frame in place of a message is answered as invalid, if the answer can
  -- be sent, and the loop goes on with no service called behind the rate limit.
  pub misplaced_frames :
      (c : ConversationId) (u : SenderId) (token : Text) (first later : Json)
      (inbound : List (Inbound Json)) (s : Session S) {sent : SendMessagePayload}
      {login : AuthPayload}
      → validate_send pydantic first ≡ some sent
      → validate_auth pydantic later ≡ some login
      → let answer = error (codes "invalid message frame") in
        (conversation_ws services
            (validate_auth pydantic)
            (validate_send pydantic)
            sends
            c
            (json first)
            inbound
            s
          ≡ (ok tt, record s { closed = 4401 ∷ s.closed }))
        × (handle services
              (validate_auth pydantic)
              (validate_send pydantic)
              sends
              c
              u
              token
              (raw_of (some later))
              s
            ≡ (if sends answer
                then (ok true, record s { sent = answer ∷ s.sent })
                else (err disconnected, s)))
  unfolding handle admitted
  misplaced_frames c u token first later inbound s is_message is_login = (
    conversation_ws-refused services (validate_auth pydantic) (validate_send pydantic) sends c
        (json first) inbound s (rw (no_login_of pydantic first is_message, admitted) refl),
    rw (raw_of-login pydantic later is_login)
        (rw (no_message_of pydantic later is_login, handle) (ground arith)),
  )
