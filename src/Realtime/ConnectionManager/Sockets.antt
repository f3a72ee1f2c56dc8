-- ===== src/Realtime/ConnectionManager/Sockets.antt =====
-- What the manager's operations do to the sockets of each conversation.
use dizzchat.Prelude.{
  ◌≡◌, refl, sym, ap, ==_iff, without_all, without_all-filter, ◌∙◌, Bool, not, List, [], ◌∷◌, arith,
  ◌==◌, if◌then◌else◌, filter, lookup, lookup-set_at, lookup-remove_key, or_empty, with_element,
  without_element, Option-cases, Bool-cases, inl, inr, map,
}
use dizzchat.Messaging.Conversation.{ConversationId}
use dizzchat.Messaging.Message.{Message}
use dizzchat.Realtime.ConnectionManager.{
  Connection, Connections, register, unregister, put_back, drop_dead, broadcast,
}

abbrev pub sockets : ConversationId → Connections → List Connection
sockets c connections = or_empty (lookup c connections)

pub sockets-register :
    (c d : ConversationId) (k : Connection) (m : Connections)
    → sockets d (register c k m).1 ≡ (if d == c then with_element k (sockets c m) else sockets d m)
unfolding register
sockets-register c d k m = ground (arith, lookup-set_at d c (with_element k (sockets c m)) m)

put_back-sockets :
    (c d : ConversationId) (rest : List Connection) (m : Connections)
    → sockets d (put_back c rest m).1 ≡ (if d == c then rest else sockets d m)
put_back-sockets c d [] m = ground (arith, lookup-remove_key d c m)
put_back-sockets c d (s ∷ rest) m = ground (arith, lookup-set_at d c (s ∷ rest) m)

pub sockets-unregister :
    (c d : ConversationId) (k : Connection) (m : Connections)
    → sockets d (unregister c k m).1
      ≡ (if d == c then without_element k (sockets c m) else sockets d m)
unfolding unregister
sockets-unregister c d k m = elim (Option-cases (lookup c m)) [
  | inl e ↦ rw (e, unregister) (ground arith)
  | inr (ks, e) ↦ rw (e, unregister) (put_back-sockets c d (without_element k ks) m)
]

pub sockets-drop_dead :
    (c d : ConversationId) (dead : List Connection) (m : Connections)
    → sockets d (drop_dead c dead m)
      ≡ (if d == c then without_all dead (sockets c m) else sockets d m)
unfolding drop_dead
sockets-drop_dead c d [] m = elim (Bool-cases (d == c)) [
  | inl same ↦ rw ((==_iff d c).0 same) (ground arith)
  | inr other ↦ rw other refl
]
sockets-drop_dead c d (k ∷ dead) m =
    let rest = (unregister c k m).1 in
    ground (
      arith,
      sockets-drop_dead c d dead rest,
      sockets-unregister c c k m,
      sockets-unregister c d k m,
    )

-- A broadcast keeps exactly the sockets of the conversation on which the send succeeds, each of
-- these has been sent the message, once, and the sockets of other conversations stay as they are.
pub sockets-broadcast :
    (open_ : Connection → Bool) (c d : ConversationId) (message : Message) (m : Connections)
    → let after = broadcast open_ c message m in
      (sockets d after.1 ≡ (if d == c then filter open_ (sockets c m) else sockets d m))
      × (after.0 ≡ map (λ k. (k, message)) (sockets c after.1))
unfolding broadcast
sockets-broadcast open_ c d message m =
    let dead = filter (λ k. not (open_ k)) (sockets c m) in
    let left = without_all-filter open_ (sockets c m) in
    let kept : sockets c (drop_dead c dead m) ≡ filter open_ (sockets c m) =
      ground (arith, sockets-drop_dead c c dead m) in
    (
      sockets-drop_dead c d dead m ∙ ap (λ ks. if d == c then ks else sockets d m) left,
      ap (map (λ k. (k, message))) (sym kept),
    )
