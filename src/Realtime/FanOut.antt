-- ===== src/Realtime/FanOut.antt =====
-- The way of messages from one replica's `RedisMessageBroadcaster` (redis_message_broadcaster.py)
-- through the channels of Redis to another replica's reader (redis_conversation_subscriber.py).
-- `publish`, and what arrives at a pub/sub connection, are arguments.
use mathlib.Core.List.{append_cancel_left}
use dizzchat.Prelude.{
  ◌≡◌, refl, sym, ap, subst, ◌∙◌, true, false, List, [], ◌∷◌, ◌++◌, map, arith, All, all, any,
  append-nil, append_assoc, is_empty, ok, if◌then◌else◌, contains, ==_iff, Bool-cases, inl, inr,
}
use dizzchat.Text.{Text, codes, text_eq, text_eq_iff}
use dizzchat.Storage.Session.{Action, ◌>>◌, pure}
use dizzchat.Messaging.Conversation.{ConversationId}
use dizzchat.Messaging.Message.{Message, message_content}
use dizzchat.Realtime.MessageCodec.{
  Formats, IsFaithful, encode, decode, decode-encode, conversation_channel, broadcast,
}
use dizzchat.Realtime.Subscriber.{Subscriber, Reading, received, run_reader}
use dizzchat.Realtime.Subscriber.Reader.{
  Delivered, IsListening, decoded, recovers, run_reader-Delivered,
}

-- A conversation, and a message that is published on its channel.
abbrev pub Publication : Type 0
Publication = ConversationId × Message

abbrev pub IsValid : Message → Type 0
IsValid m = message_content m.content ≡ ok m.content

-- The messages that are published in one of the conversations.
abbrev pub heard : List ConversationId → List Publication → List Message
heard listening [] = []
heard listening ((c, m) ∷ publications) =
    let rest = heard listening publications in if contains c listening then m ∷ rest else rest

All-heard :
    (listening : List ConversationId) (publications : List Publication)
    → All (λ (p : Publication). IsValid p.1) publications
    → All IsValid (heard listening publications)
All-heard listening [] valid = tt
All-heard listening ((c, m) ∷ publications) valid =
    let rest = All-heard listening publications valid.1 in
    elim (Bool-cases (contains c listening)) [
      | inl on ↦ rw on (valid.0, rest)
      | inr off ↦ rw off rest
    ]

module _ {Bytes : Type 0} (formats : Formats Bytes) where
  -- What the reader makes of the data that `get_message` returns.
  pub readings_of : List Bytes → List Reading
  readings_of arrived = map (λ data_. received (decode formats data_)) arrived

  pub broadcast_all :
      {R : Type 0} → (Text → Bytes → Action R (Unit {0})) → List Publication → Action R (Unit {0})
  broadcast_all publish [] = pure tt
  broadcast_all publish ((c, m) ∷ publications) =
      broadcast formats publish c m >> broadcast_all publish publications

  -- Redis answers. `arrivals` is what has arrived at a connection that is subscribed to the channels:
  -- a publication arrives there, behind what did before, if it is on one of the channels.
  pub record IsPublishing {R : Type 0} (publish : Text → Bytes → Action R (Unit {0}))
      (arrivals : List Text → R → List Bytes) : Type 0 where
    pub publish_result :
        (channel : Text) (data_ : Bytes) (r : R) → (publish channel data_ r).0 ≡ ok tt
    pub publish_arrivals :
        (channels : List Text) (channel : Text) (data_ : Bytes) (r : R)
        → arrivals channels (publish channel data_ r).1 ≡ (
            if any (text_eq channel) channels
            then arrivals channels r ++ (data_ ∷ [])
            else arrivals channels r)

  -- The channels of the conversations.
  abbrev pub channels_of : List ConversationId → List Text
  channels_of listening = map (conversation_channel formats) listening

  module _ (laws : IsFaithful formats) where
    -- No two conversations share a channel.
    conversation_channel-injective :
        (c d : ConversationId)
        → conversation_channel formats c ≡ conversation_channel formats d
        → c ≡ d
    unfolding conversation_channel
    conversation_channel-injective c d e =
        let same = append_cancel_left (codes "conv:") (formats.uuid_str c) (formats.uuid_str d) e in
        cc (same, laws.uuid_parse_str c, laws.uuid_parse_str d)

    hears-channel :
        (listening : List ConversationId) (c : ConversationId)
        → any (text_eq (conversation_channel formats c)) (channels_of listening)
          ≡ contains c listening
    hears-channel [] c = refl
    hears-channel (d ∷ listening) c = ground (
      arith,
      hears-channel listening c,
      text_eq_iff (conversation_channel formats c) (conversation_channel formats d),
      conversation_channel-injective c d,
      λ (e : c ≡ d). ap (conversation_channel formats) e,
      ==_iff c d,
    )

    module _ {R : Type 0} (publish : Text → Bytes → Action R (Unit {0}))
        (arrivals : List Text → R → List Bytes) (redis : IsPublishing publish arrivals)
        (listening : List ConversationId) where
      arrived-broadcast_all :
          (publications : List Publication) (r : R)
          → arrivals (channels_of listening) (broadcast_all publish publications r).1
            ≡ arrivals (channels_of listening) r
              ++ map (encode formats) (heard listening publications)
      unfolding broadcast_all broadcast
      arrived-broadcast_all [] r = sym (append-nil (arrivals (channels_of listening) r))
      arrived-broadcast_all ((c, m) ∷ publications) r =
          let channel = conversation_channel formats c in
          let data_ = encode formats m in
          let before = arrivals (channels_of listening) r in
          let later = map (encode formats) (heard listening publications) in
          let r' = (publish channel data_ r).1 in
          let rest = arrived-broadcast_all publications r' in
          let one = redis.publish_arrivals (channels_of listening) channel data_ r in
          rw (redis.publish_result channel data_ r) (elim (Bool-cases (contains c listening)) [
            | inl on ↦
                let here : arrivals (channels_of listening) r' ≡ before ++ (data_ ∷ []) =
                  one ∙ rw (hears-channel listening c, on) refl in
                rw on (
                  rest
                  ∙ ap (λ (l : List Bytes). l ++ later) here
                  ∙ append_assoc before (data_ ∷ []) later)
            | inr off ↦
                let none_here : arrivals (channels_of listening) r' ≡ before =
                  one ∙ rw (hears-channel listening c, off) refl in
                rw off (rest ∙ ap (λ (l : List Bytes). l ++ later) none_here)
          ])

    decoded-readings_of :
        (ms : List Message) → All IsValid ms → decoded (readings_of (map (encode formats) ms)) ≡ ms
    unfolding readings_of
    decoded-readings_of [] valid = refl
    decoded-readings_of (m ∷ ms) valid =
        rw (decode-encode formats m laws valid.0) (ap (m ∷◌) (decoded-readings_of ms valid.1))

  recovers-readings_of :
      (channels : List ConversationId) (arrived : List Bytes)
      → all (recovers channels) (readings_of arrived) ≡ true
  unfolding readings_of
  recovers-readings_of channels [] = refl
  recovers-readings_of channels (data_ ∷ arrived) = recovers-readings_of channels arrived

  -- Where the text forms of UUIDs and times, and JSON, are read back as they were written, and Redis
  -- answers and brings what is published to the connections on its channel, in its order: of the
  -- messages of valid content that a replica broadcasts, the reader of a replica with a channel, whose
  -- pub/sub connection is subscribed to all of its channels and has received nothing yet, hands to
  -- local delivery exactly those whose conversation the connection is subscribed to, as they were
  -- written, each once and in the order in which they were broadcast; and it goes on listening.
  pub run_reader-published :
      {R : Type 0} (publish : Text → Bytes → Action R (Unit {0}))
      (arrivals : List Text → R → List Bytes) (publications : List Publication) (r : R)
      (s : Subscriber)
      → IsPublishing publish arrivals
      → IsFaithful formats
      → All (λ (p : Publication). IsValid p.1) publications
      → arrivals (channels_of s.listening) r ≡ []
      → is_empty s.channels ≡ false
      → IsListening s
      → Delivered s.channels (heard s.listening publications) (
          run_reader
            (readings_of
              (arrivals (channels_of s.listening) (broadcast_all publish publications r).1))
            s)
  run_reader-published publish arrivals publications r s redis laws valid empty some_channel
        listens =
      let ms = heard s.listening publications in
      let arrived = map (encode formats) ms in
      let sent : arrivals (channels_of s.listening) (broadcast_all publish publications r).1
          ≡ arrived =
        arrived-broadcast_all laws publish arrivals redis s.listening publications r
        ∙ ap (λ (l : List Bytes). l ++ arrived) empty in
      subst (λ l. Delivered s.channels ms (run_reader (readings_of l) s)) (sym sent)
        (subst (λ messages. Delivered s.channels messages (run_reader (readings_of arrived) s))
          (decoded-readings_of laws ms (All-heard s.listening publications valid))
          (run_reader-Delivered (readings_of arrived) s some_channel
            (recovers-readings_of s.channels arrived) listens))
