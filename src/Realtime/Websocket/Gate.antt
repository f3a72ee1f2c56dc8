-- ===== src/Realtime/Websocket/Gate.antt =====
-- What a socket must pass before it is served, and that it leaves what it joined.
use dizzchat.Prelude.{
  ◌≡◌, refl, Bool, true, Option, none, some, List, ◌∷◌, arith, Result, ok, err, Option-cases, inl,
  inr,
}
use dizzchat.Text.{Text}
use dizzchat.Errors.{
  Error, messaging, not_conversation_participant, conversation_error, disconnected, identity,
  value_error, integrity_error, redis_error, zero_division_error, key_error, http_exception,
  request_validation_error,
}
use dizzchat.Storage.Session.{◌>>◌}
use dizzchat.Messaging.Conversation.{Uuid, ConversationId}
use dizzchat.Messaging.Message.{MessageId}
use dizzchat.Realtime.Websocket.{
  Frame, FirstFrame, Inbound, gone, timed_out, not_text, not_json, json, Session, Services,
  SendMessagePayload, AuthPayload, auth_ok, authenticate, enter, converse, conversation_ws,
  replay_missed, receive_loop, ended, call,
}

module _ {S J : Type 0} (services : Services S) (validate_auth : J → Option AuthPayload)
    (validate_send : J → Option SendMessagePayload) (sends : Frame → Bool) where
  -- The payload of a first frame with a token that decodes.
  unfoldable pub admitted : FirstFrame J → S → Option (Uuid × AuthPayload)
  admitted (json raw) app = elim (validate_auth raw) [
    | none ↦ none
    | some payload ↦ elim (services.decode_access payload.token app) [
      | none ↦ none
      | some user_id ↦ some (user_id, payload)
    ]
  ]
  admitted gone app = none
  admitted timed_out app = none
  admitted not_text app = none
  admitted not_json app = none

  abbrev pub refused : FirstFrame J → Session S → Result Error (Unit {0}) × Session S
  refused gone s = (ok tt, s)
  refused not_text s = (err key_error, s)
  refused timed_out s = (ok tt, record s { closed = 4401 ∷ s.closed })
  refused not_json s = (ok tt, record s { closed = 4401 ∷ s.closed })
  refused (json raw) s = (ok tt, record s { closed = 4401 ∷ s.closed })

  -- Without a first frame that carries a valid token, and whatever the client sends besides, no
  -- service is called but the token's decoding and nothing is sent. The socket is closed with 4401
  -- where no frame came in time, or a text that is no JSON, no auth frame, or has a token that does
  -- not decode; nothing more is done where the client has gone; and where the first frame is binary
  -- the endpoint raises `KeyError` and does not close the socket.
  pub conversation_ws-refused :
      (c : ConversationId) (first : FirstFrame J) (inbound : List (Inbound J)) (s : Session S)
      → admitted first s.app ≡ none
      → conversation_ws services validate_auth validate_send sends c first inbound s
        ≡ refused first s
  unfolding conversation_ws authenticate admitted
  conversation_ws-refused c gone inbound s h = refl
  conversation_ws-refused c timed_out inbound s h = refl
  conversation_ws-refused c not_text inbound s h = refl
  conversation_ws-refused c not_json inbound s h = refl
  conversation_ws-refused c (json raw) inbound s h = elim (Option-cases (validate_auth raw)) [
    | inl e ↦ rw (e, conversation_ws, authenticate) refl
    | inr (payload, e) ↦ elim (Option-cases (services.decode_access payload.token s.app)) [
      | inl e' ↦ rw (e, conversation_ws, authenticate) (rw e' refl)
      | inr (u, e') ↦
          let bad : admitted (json raw) s.app ≡ some (u, payload) = rw (e, admitted) (rw e' refl) in
          ground (arith, bad)
    ]
  ]

  -- What `finally` does, whatever the outcome.
  leaves :
      (c : ConversationId) (r : Result Error (Unit {0})) (s : Session S)
      → let after =
          (ended services validate_auth validate_send sends r >> call (services.leave c)) s in
        (after.0 ≡ (services.leave c s.app).0) × (after.1.app ≡ (services.leave c s.app).1)
  leaves c (ok _) s = (refl, refl)
  leaves c (err (messaging _)) s = (refl, refl)
  leaves c (err (identity _)) s = (refl, refl)
  leaves c (err value_error) s = (refl, refl)
  leaves c (err integrity_error) s = (refl, refl)
  leaves c (err redis_error) s = (refl, refl)
  leaves c (err zero_division_error) s = (refl, refl)
  leaves c (err key_error) s = (refl, refl)
  leaves c (err disconnected) s = (refl, refl)
  leaves c (err (http_exception _)) s = (refl, refl)
  leaves c (err request_validation_error) s = (refl, refl)

  -- A participant who authenticates and whose join succeeds leaves the conversation as the last
  -- thing that happens, whatever the client sends, whichever services fail and whichever frames
  -- after the first cannot be sent; the endpoint ends as the leave does.
  pub conversation_ws-leaves :
      (c : ConversationId) (first : FirstFrame J) (inbound : List (Inbound J)) (s : Session S)
      (u : Uuid) (token : Text) (seen : Option MessageId) (ensured joined : S)
      → authenticate services validate_auth validate_send sends first s
        ≡ (ok (some (u, token, seen)), s)
      → services.ensure c u s.app ≡ (ok tt, ensured)
      → sends auth_ok ≡ true
      → services.join c ensured ≡ (ok tt, joined)
      → let after = conversation_ws services validate_auth validate_send sends c first inbound s in
        (app : S) × (after.0 ≡ (services.leave c app).0) × (after.1.app ≡ (services.leave c app).1)
  unfolding conversation_ws enter converse
  conversation_ws-leaves c first inbound s u token seen ensured joined h may can in_ =
      let talk : Result Error (Unit {0}) × Session S =
        (replay_missed services validate_auth validate_send sends c seen
            >> receive_loop services validate_auth validate_send sends c u token inbound)
          (record s { app = joined; sent = auth_ok ∷ s.sent }) in
      let (result, app) = leaves c talk.0 talk.1 in
      rw (h, conversation_ws) (rw (may, enter) (rw can (rw in_ (talk.1.app, result, app))))

  -- A user whom the check of the conversation turns away is sent nothing, and neither joins nor
  -- sends anything: no service is called after the check.
  pub conversation_ws-turned_away :
      (c : ConversationId) (first : FirstFrame J) (inbound : List (Inbound J)) (s : Session S)
      (u : Uuid) (token : Text) (seen : Option MessageId) (checked : S)
      → authenticate services validate_auth validate_send sends first s
        ≡ (ok (some (u, token, seen)), s)
      → services.ensure c u s.app ≡ (err (conversation_error not_conversation_participant), checked)
      → conversation_ws services validate_auth validate_send sends c first inbound s
        ≡ (ok tt, record s { app = checked; closed = 4403 ∷ s.closed })
  unfolding conversation_ws enter
  conversation_ws-turned_away c first inbound s u token seen checked h stranger =
      rw (h, conversation_ws) (rw (stranger, enter) refl)
