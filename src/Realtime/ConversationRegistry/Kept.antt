-- ===== src/Realtime/ConversationRegistry/Kept.antt =====
-- That joins, leaves and dropped sockets keep the conversations with a socket in the subscriber's
-- set.
use dizzchat.Prelude.{
  ◌≡◌, Bool, true, false, List, arith, ==_iff, contains, contains-with_element,
  contains-without_element, Bool-cases, inl, inr,
}
use dizzchat.Messaging.Conversation.{ConversationId}
use dizzchat.Realtime.ConnectionManager.{Connection, register, unregister, drop_dead}
use dizzchat.Realtime.ConnectionManager.Transitions.{
  IsTidy, is_live, register-IsTidy, is_live-register, unregister-IsTidy, unregister-last,
  register-first, is_live-unregister, unlive-unregister, register-undone, drop_dead-IsTidy,
  is_live-drop_dead,
}
use dizzchat.Realtime.Subscriber.{subscribe, unsubscribe}
use dizzchat.Realtime.ConversationRegistry.{Replica, join, leave}

-- Where `dropped` is false, no broadcast has dropped a dead socket so far.
pub record IsCoherent (dropped : Bool) (r : Replica) : Type 0 where
  pub tidy : IsTidy r.connections
  pub covered :
      (c : ConversationId)
      → is_live c r.connections ≡ true
      → contains c r.subscriber.channels ≡ true
  pub matched :
      dropped ≡ false
      → (c : ConversationId) → contains c r.subscriber.channels ≡ is_live c r.connections

module _ (b : Bool) (r : Replica) (h : IsCoherent b r) (reachable : Bool) (c : ConversationId)
    (k : Connection) where
  pub join-IsCoherent : IsCoherent b (join reachable c k r).1
  unfolding join subscribe
  join-IsCoherent =
      let m = r.connections in
      let registered = register c k m in
      let taken_back = unregister c k registered.1 in
      elim (Bool-cases (is_live c m)) [
        | inl live ↦
            let flag : registered.0 ≡ false = ground (arith, register-first c k m) in
            rw flag (record {
              tidy = register-IsTidy c k m h.tidy;
              covered = λ d.
                  ground (arith, ==_iff d c, is_live-register c d k m, h.covered d, h.covered c);
              matched = λ e d.
                  ground
                    (arith, ==_iff d c, is_live-register c d k m, h.matched e d, h.matched e c);
            })
        | inr fresh ↦
            let flag : registered.0 ≡ true = ground (arith, register-first c k m) in
            elim (Bool-cases reachable) [
              | inl up ↦ rw flag (
                  rw up (record {
                    tidy = register-IsTidy c k m h.tidy;
                    covered = λ d. ground (
                      arith,
                      is_live-register c d k m,
                      h.covered d,
                      contains-with_element c d r.subscriber.channels,
                    );
                    matched = λ e d. ground (
                      arith,
                      is_live-register c d k m,
                      h.matched e d,
                      contains-with_element c d r.subscriber.channels,
                    );
                  }))
              | inr down ↦ rw flag (
                  rw down (record {
                    tidy = unregister-IsTidy c k registered.1 (register-IsTidy c k m h.tidy);
                    covered = λ d. ground (
                      arith,
                      ==_iff d c,
                      is_live-unregister c d k registered.1,
                      is_live-register c d k m,
                      register-undone c k m fresh,
                      h.covered d,
                    );
                    matched = λ e d. ground (
                      arith,
                      ==_iff d c,
                      is_live-unregister c d k registered.1,
                      is_live-register c d k m,
                      register-undone c k m fresh,
                      h.matched e d,
                    );
                  }))
            ]
      ]

  pub leave-IsCoherent : IsCoherent b (leave reachable c k r).1
  unfolding leave unsubscribe
  leave-IsCoherent =
      let m = r.connections in
      let left = unregister c k m in
      let tidy = unregister-IsTidy c k m h.tidy in
      let last = unregister-last c k m h.tidy in
      elim (Bool-cases left.0) [
        | inr others ↦ rw others (record {
          tidy = tidy;
          covered = λ d.
              ground (
                arith,
                ==_iff d c,
                is_live-unregister c d k m,
                unlive-unregister c k m,
                h.covered d,
              );
          matched = λ e d. ground (
            arith,
            ==_iff d c,
            is_live-unregister c d k m,
            unlive-unregister c k m,
            h.matched e d,
          );
        })
        | inl none_left ↦
            let gone : is_live c left.1 ≡ false = ground arith in
            elim (Bool-cases reachable) [
              | inl up ↦ rw none_left (
                  rw up (record {
                    tidy = tidy;
                    covered = λ d. ground (
                      arith,
                      is_live-unregister c d k m,
                      h.covered d,
                      contains-without_element c d r.subscriber.channels,
                    );
                    matched = λ e d. ground (
                      arith,
                      is_live-unregister c d k m,
                      h.matched e d,
                      contains-without_element c d r.subscriber.channels,
                    );
                  }))
              | inr down ↦ rw none_left (
                  rw down (record {
                    tidy = tidy;
                    covered = λ d. ground (
                      arith,
                      is_live-unregister c d k m,
                      h.covered d,
                      contains-without_element c d r.subscriber.channels,
                    );
                    matched = λ e d. ground (
                      arith,
                      is_live-unregister c d k m,
                      h.matched e d,
                      contains-without_element c d r.subscriber.channels,
                    );
                  }))
            ]
      ]

pub drop_dead-IsCoherent :
    (b : Bool) (r : Replica) (c : ConversationId) (dead : List Connection)
    → IsCoherent b r
    → IsCoherent true (record r { connections = drop_dead c dead r.connections })
drop_dead-IsCoherent b r c dead h = record {
  tidy = drop_dead-IsTidy c dead r.connections h.tidy;
  covered = λ d live. h.covered d (is_live-drop_dead c d dead r.connections live);
  matched = λ e. ground arith;
}
