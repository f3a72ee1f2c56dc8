-- ===== src/Realtime/ConnectionManager/Transitions.antt =====
-- The transitions between no socket and one that the manager reports.
use dizzchat.Prelude.{
  ◌≡◌, Bool, true, false, ◌&&◌, ◌||◌, not, some, List, [], ◌∷◌, arith, ◌==◌, ==_iff, if◌then◌else◌,
  is_empty, is_some, lookup, lookup-set_at, lookup-remove_key, with_element, without_element,
  Option-cases, inl, inr,
}
use dizzchat.Messaging.Conversation.{ConversationId}
use dizzchat.Realtime.ConnectionManager.{
  Connection, Connections, register, unregister, put_back, drop_dead,
}
use dizzchat.Realtime.ConnectionManager.Sockets.{sockets, sockets-register, sockets-unregister}

-- Whether a conversation has a socket on this replica.
abbrev pub is_live : ConversationId → Connections → Bool
is_live c m = not (is_empty (sockets c m))

-- No conversation is kept with an empty set.
abbrev pub IsTidy : Connections → Type 0
IsTidy m = (c : ConversationId) → is_some (lookup c m) ≡ is_live c m

pub register-IsTidy :
    (c : ConversationId) (k : Connection) (m : Connections) → IsTidy m → IsTidy (register c k m).1
unfolding register
register-IsTidy c k m h d = ground (arith, h d, lookup-set_at d c (with_element k (sockets c m)) m)

pub is_live-register :
    (c d : ConversationId) (k : Connection) (m : Connections)
    → is_live d (register c k m).1 ≡ (d == c || is_live d m)
is_live-register c d k m = ground (arith, sockets-register c d k m)

put_back-IsTidy :
    (c : ConversationId) (rest : List Connection) (m : Connections)
    → IsTidy m
    → IsTidy (put_back c rest m).1
put_back-IsTidy c [] m h d = ground (arith, h d, lookup-remove_key d c m)
put_back-IsTidy c (s ∷ rest) m h d = ground (arith, h d, lookup-set_at d c (s ∷ rest) m)

pub unregister-IsTidy :
    (c : ConversationId) (k : Connection) (m : Connections) → IsTidy m → IsTidy (unregister c k m).1
unfolding unregister
unregister-IsTidy c k m h = elim (Option-cases (lookup c m)) [
  | inl e ↦ rw (e, unregister) h
  | inr (ks, e) ↦ rw (e, unregister) (put_back-IsTidy c (without_element k ks) m h)
]

-- Whether a socket is the last one is told by the sockets before and after.
pub unregister-last :
    (c : ConversationId) (k : Connection) (m : Connections)
    → IsTidy m
    → (unregister c k m).0 ≡ (is_live c m && not (is_live c (unregister c k m).1))
unfolding unregister
unregister-last c k m h = elim (Option-cases (lookup c m)) [
  | inl e ↦ rw (e, unregister) (ground (arith, h c))
  | inr (ks, e) ↦ rw (e, unregister) (go ks (without_element k ks) e)
]
  where
    go :
        (ks rest : List Connection)
        → lookup c m ≡ some ks
        → (put_back c rest m).0 ≡ (not (is_empty ks) && not (is_live c (put_back c rest m).1))
    go ks [] e = ground (arith, h c, lookup-remove_key c c m)
    go ks (s ∷ rest) e = ground (arith, h c, lookup-set_at c c (s ∷ rest) m)

pub register-first :
    (c : ConversationId) (k : Connection) (m : Connections) → (register c k m).0 ≡ not (is_live c m)
unfolding register
register-first c k m = ground arith

-- A socket that leaves makes no other conversation live, and its own only less so.
pub is_live-unregister :
    (c d : ConversationId) (k : Connection) (m : Connections)
    → is_live d (unregister c k m).1
      ≡ (if d == c then is_live c (unregister c k m).1 else is_live d m)
is_live-unregister c d k m = ground (arith, sockets-unregister c d k m, sockets-unregister c c k m)

-- An empty set stays empty.
pub unlive-unregister :
    (c : ConversationId) (k : Connection) (m : Connections)
    → is_live c m ≡ false
    → is_live c (unregister c k m).1 ≡ false
unlive-unregister c k m h = ground (arith, sockets-unregister c c k m)

-- The first registration, taken back, leaves the conversation without a socket.
pub register-undone :
    (c : ConversationId) (k : Connection) (m : Connections)
    → is_live c m ≡ false
    → is_live c (unregister c k (register c k m).1).1 ≡ false
register-undone c k m h =
    ground (arith, sockets-unregister c c k (register c k m).1, sockets-register c c k m)

pub drop_dead-IsTidy :
    (c : ConversationId) (dead : List Connection) (m : Connections)
    → IsTidy m
    → IsTidy (drop_dead c dead m)
unfolding drop_dead
drop_dead-IsTidy c [] m h = h
drop_dead-IsTidy c (k ∷ dead) m h =
    drop_dead-IsTidy c dead (unregister c k m).1 (unregister-IsTidy c k m h)

pub is_live-drop_dead :
    (c d : ConversationId) (dead : List Connection) (m : Connections)
    → is_live d (drop_dead c dead m) ≡ true
    → is_live d m ≡ true
unfolding drop_dead
is_live-drop_dead c d [] m h = h
is_live-drop_dead c d (k ∷ dead) m h =
    let before = is_live-drop_dead c d dead (unregister c k m).1 h in
    ground (arith, ==_iff d c, is_live-unregister c d k m, unlive-unregister c k m)
