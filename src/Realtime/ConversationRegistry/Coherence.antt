-- ===== src/Realtime/ConversationRegistry/Coherence.antt =====
-- How far the subscriptions of a replica are those of the conversations that have a socket on it.
use dizzchat.Prelude.{
  ◌≡◌, refl, Bool, true, false, ◌||◌, not, List, arith, contains, all, Bool-cases, Result-cases,
  inl, inr,
}
use dizzchat.Messaging.Conversation.{ConversationId}
use dizzchat.Realtime.ConnectionManager.{Connection, register, unregister, drop_dead}
use dizzchat.Realtime.ConnectionManager.Transitions.{
  is_live, unregister-last, unlive-unregister, drop_dead-IsTidy,
}
use dizzchat.Realtime.Subscriber.{Reading, subscribe, run_reader}
use dizzchat.Realtime.Subscriber.Reader.{recovers}
use dizzchat.Realtime.Subscriber.Synced.{
  IsSynced, subscribe-IsSynced, unsubscribe-IsSynced, run_reader-channels, run_reader-IsSynced,
}
use dizzchat.Realtime.ConversationRegistry.{Replica, empty_replica, join, leave}
use dizzchat.Realtime.ConversationRegistry.Kept.{
  IsCoherent, join-IsCoherent, leave-IsCoherent, drop_dead-IsCoherent,
}

-- What has happened so far: that a broadcast has dropped a dead socket, that Redis did not answer
-- when a socket left, and that a channel could not be subscribed to again after a lost connection.
pub record Troubles : Type 0 where
  pub dropped : Bool
  pub unanswered : Bool
  pub lost : Bool

abbrev pub no_trouble : Troubles
no_trouble = record { dropped = false; unanswered = false; lost = false }

-- The states that a replica comes to, by joins and leaves, whether Redis answers or not, by the
-- dead sockets that broadcasts drop, and by the rounds of the reader.
pub data Reached : Troubles → Replica → Type 0 where
  started : Reached no_trouble empty_replica
  joined :
      {t : Troubles} (reachable : Bool) (c : ConversationId) (k : Connection) (r : Replica)
      → Reached t r
      → Reached t (join reachable c k r).1
  left :
      {t : Troubles} (reachable : Bool) (c : ConversationId) (k : Connection) (r : Replica)
      → Reached t r
      → Reached (record t { unanswered = t.unanswered || not reachable }) (leave reachable c k r).1
  lost_sockets :
      {t : Troubles} (c : ConversationId) (dead : List Connection) (r : Replica)
      → Reached t r
      → Reached
          (record t { dropped = true })
          (record r { connections = drop_dead c dead r.connections })
  read :
      {t : Troubles} (readings : List Reading) (r : Replica)
      → Reached t r
      → Reached
          (record t { lost = t.lost || not (all (recovers r.subscriber.channels) readings) })
          (record r { subscriber = (run_reader readings r.subscriber).1.1 })

module _ (lost unanswered : Bool) (r : Replica) (h : IsSynced lost unanswered r.subscriber)
    (reachable : Bool) (c : ConversationId) (k : Connection) where
  join-IsSynced : IsSynced lost unanswered (join reachable c k r).1.subscriber
  unfolding join
  join-IsSynced =
      let synced = subscribe-IsSynced lost unanswered r.subscriber h reachable c in
      elim (Bool-cases (register c k r.connections).0) [
        | inr live ↦ rw live h
        | inl fresh ↦ elim (Result-cases (subscribe reachable c r.subscriber).0) [
          | inl (e, refused) ↦ rw fresh (rw refused synced)
          | inr (x, subscribed) ↦ rw fresh (rw subscribed synced)
        ]
      ]

  leave-IsSynced : IsSynced lost (unanswered || not reachable) (leave reachable c k r).1.subscriber
  unfolding leave
  leave-IsSynced = elim (Bool-cases (unregister c k r.connections).0) [
    | inl none_left ↦ rw none_left (unsubscribe-IsSynced lost unanswered r.subscriber h reachable c)
    | inr others ↦
        rw others (record { listens = h.listens; trimmed = λ e. h.trimmed (ground arith) })
  ]

Reached-IsCoherent : {t : Troubles} {r : Replica} → Reached t r → IsCoherent t.dropped r
Reached-IsCoherent started = record {
  tidy = λ c. refl;
  covered = λ c. ground arith;
  matched = λ e c. refl;
}
Reached-IsCoherent (joined {t} reachable c k r h) =
    join-IsCoherent t.dropped r (Reached-IsCoherent h) reachable c k
Reached-IsCoherent (left {t} reachable c k r h) =
    leave-IsCoherent t.dropped r (Reached-IsCoherent h) reachable c k
Reached-IsCoherent (lost_sockets {t} c dead r h) =
    drop_dead-IsCoherent t.dropped r c dead (Reached-IsCoherent h)
Reached-IsCoherent (read {t} readings r h) =
    let before = Reached-IsCoherent h in
    record {
      tidy = before.tidy;
      covered = rw (run_reader-channels readings r.subscriber) before.covered;
      matched = rw (run_reader-channels readings r.subscriber) before.matched;
    }

Reached-IsSynced :
    {t : Troubles} {r : Replica} → Reached t r → IsSynced t.lost t.unanswered r.subscriber
Reached-IsSynced started = record { listens = λ e c h. h; trimmed = λ e c h. h }
Reached-IsSynced (joined {t} reachable c k r h) =
    join-IsSynced t.lost t.unanswered r (Reached-IsSynced h) reachable c k
Reached-IsSynced (left {t} reachable c k r h) =
    leave-IsSynced t.lost t.unanswered r (Reached-IsSynced h) reachable c k
Reached-IsSynced (lost_sockets c dead r h) = Reached-IsSynced h
Reached-IsSynced (read {t} readings r h) =
    run_reader-IsSynced t.lost t.unanswered readings r.subscriber (Reached-IsSynced h)

-- Whatever joins, leaves, broadcasts and rounds of the reader there were, and whichever calls of
-- Redis failed: a conversation with a socket on the replica is in the subscriber's set, from which
-- the reader subscribes again; and the pub/sub connection is subscribed to it, unless a channel
-- could not be subscribed to again after a lost connection.
pub Reached-covered :
    {t : Troubles} {r : Replica} (c : ConversationId)
    → Reached t r
    → is_live c r.connections ≡ true
    → (contains c r.subscriber.channels ≡ true)
      × ((t.lost || contains c r.subscriber.listening) ≡ true)
Reached-covered {t} {r} c h live =
    let kept = (Reached-IsCoherent h).covered c live in
    elim (Bool-cases t.lost) [
      | inl lost ↦ (kept, ground arith)
      | inr none_lost ↦ (kept, ground (arith, (Reached-IsSynced h).listens none_lost c kept))
    ]

-- As long as no broadcast has dropped a dead socket, the subscriber's set holds exactly the
-- conversations with a socket: no join and no leave, failed ones included, leaves in it one without
-- a socket, or one with a socket out of it. And the pub/sub connection is subscribed to no
-- conversation without a socket, unless Redis did not answer when a socket left.
pub Reached-matched :
    {t : Troubles} {r : Replica} (c : ConversationId)
    → Reached t r
    → t.dropped ≡ false
    → (contains c r.subscriber.channels ≡ is_live c r.connections)
      × ((t.unanswered || (not (contains c r.subscriber.listening) || is_live c r.connections))
          ≡ true)
Reached-matched {t} {r} c h none_dropped =
    let same = (Reached-IsCoherent h).matched none_dropped c in
    elim (Bool-cases t.unanswered) [
      | inl unanswered ↦ (same, ground arith)
      | inr answered ↦ (same, ground (arith, same, (Reached-IsSynced h).trimmed answered c))
    ]

-- In any state that a replica comes to: once a broadcast has dropped the dead sockets of a
-- conversation and none is left, the leave that any of these sockets still makes does not
-- unsubscribe, and the channel stays, with no socket.
pub leave-drop_dead :
    {t : Troubles} {r : Replica} (c : ConversationId) (dead : List Connection) (k : Connection)
    (reachable : Bool)
    → Reached t r
    → is_live c r.connections ≡ true
    → is_live c (drop_dead c dead r.connections) ≡ false
    → let after =
        (leave reachable c k (record r { connections = drop_dead c dead r.connections })).1 in
      (contains c after.subscriber.channels ≡ true) × (is_live c after.connections ≡ false)
unfolding leave
leave-drop_dead {t} {r} c dead k reachable h live gone =
    let m = drop_dead c dead r.connections in
    let channel = (Reached-covered c h live).0 in
    let not_last : (unregister c k m).0 ≡ false = ground (
      arith,
      unregister-last c k m (drop_dead-IsTidy c dead r.connections (Reached-IsCoherent h).tidy),
    ) in
    rw not_last (channel, unlive-unregister c k m gone)
