-- ===== src/Realtime/Wiring/Stored.antt =====
-- That what the wired endpoint acknowledges is a committed row.
use dizzchat.Prelude.{ℕ, subst, Bool, Option, List, [], ok, err, Result, suc}
use dizzchat.Errors.{Attempt, Error}
use dizzchat.Storage.Rows.{Database}
use dizzchat.Storage.Messages.Log.{to_row}
use dizzchat.Storage.Messages.Outcomes.{Stored}
use dizzchat.Messaging.Conversation.{ConversationId}
use dizzchat.Messaging.Message.{Message}
use dizzchat.Messaging.Services.MessageExchange.Durable.{World}
use dizzchat.Messaging.Services.MessageExchange.Acknowledged.{KeepsRows, IsAcked, exchange-IsAcked}
use dizzchat.Realtime.ConnectionManager.{Connection}
use dizzchat.Realtime.Websocket.{Frame, FirstFrame, Inbound, SendMessagePayload, AuthPayload}
use dizzchat.Realtime.Websocket.Acknowledged.{AreKeeping, AcksKept, conversation_ws-AcksKept}
use dizzchat.Realtime.Wiring.{App, Surroundings, arriving, services, serve_socket}

-- That other sessions remove no message.
abbrev pub LeavesRows : {R : Type 0} → Surroundings R → Type 0
LeavesRows around = (n : ℕ) (db : Database) → KeepsRows db (around.others n db)

-- A message whose row is committed.
abbrev pub IsCommitted : {R : Type 0} → App R → Message → Type 0
IsCommitted s m = Stored (to_row m) s.world.db.messages

module _ {R : Type 0} (around : Surroundings R) (leaves : LeavesRows around)
    (connection : Connection) where
  -- That a message which is returned is committed.
  abbrev Returned : Result Error Message × App R → Type 0
  Returned (ok m, s) = IsCommitted s m
  Returned (err e, s) = Unit

  acked-Returned :
      (c : ConversationId) (db : Database) (r : Attempt Message × World) (s : App R)
      → IsAcked c db r
      → Returned (r.0, record s { world = r.1 })
  acked-Returned c db (ok m, w) s acked = acked.0.0
  acked-Returned c db (err e, w) s acked = tt

  kept :
      (c : ConversationId) (db : Database) (r : Attempt Message × World)
      → IsAcked c db r
      → KeepsRows db r.1.db
  kept c db (ok m, w) acked = acked.1
  kept c db (err e, w) acked = acked

  services-AreKeeping : AreKeeping IsCommitted (services around connection)
  unfolding services
  services-AreKeeping = record {
    ensure_keeps = λ c p s m there. leaves s.calls s.world.db (to_row m) there;
    join_keeps = λ c s m there. leaves s.calls s.world.db (to_row m) there;
    leave_keeps = λ c s m there. leaves s.calls s.world.db (to_row m) there;
    replay_keeps = λ c last s m there. leaves s.calls s.world.db (to_row m) there;
    allow_keeps = λ u s m there. leaves s.calls s.world.db (to_row m) there;
    exchange_keeps = λ c sender content key s m there.
        let w = (arriving around s).world in
        kept c w.db _
          (exchange-IsAcked (around.reading s.calls) (around.reading (suc s.calls))
            (around.can_publish s.calls) c sender content key w)
          (to_row m) (leaves s.calls s.world.db (to_row m) there);
    exchange_returns = λ c sender content key s s' m e.
        let arrived = arriving around s in
        subst Returned e (
          acked-Returned c arrived.world.db _ (record arrived { calls = suc arrived.calls })
            (exchange-IsAcked (around.reading s.calls) (around.reading (suc s.calls))
              (around.can_publish s.calls) c sender content key arrived.world));
  }

  -- Where other sessions, whatever else they commit meanwhile, remove no message: on a socket that is
  -- served with the units of work, the registry, the limiter and the publisher of a replica, every
  -- message that was acknowledged to the client is a committed row when the socket's time ends,
  -- whatever the client sent, and whichever sends, publications and subscriptions failed.
  pub serve_socket-AcksKept :
      {J : Type 0} (validate_auth : J → Option AuthPayload)
      (validate_send : J → Option SendMessagePayload) (sends : Frame → Bool) (c : ConversationId)
      (first : FirstFrame J) (inbound : List (Inbound J)) (app : App R)
      → AcksKept IsCommitted
          (serve_socket around validate_auth validate_send sends connection c first inbound
            (record { app = app; sent = []; closed = [] })).1
  unfolding serve_socket
  serve_socket-AcksKept validate_auth validate_send sends c first inbound app =
      conversation_ws-AcksKept IsCommitted services-AreKeeping validate_auth validate_send sends c
        first inbound (record { app = app; sent = []; closed = [] }) tt
