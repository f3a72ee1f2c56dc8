-- ===== src/Realtime/Websocket/Wire.antt =====
-- What a client reads: the frames that the endpoint sends, and among them those that broadcasts of
-- the replica (`ConnectionManager.broadcast`) send on the same socket.
use dizzchat.Prelude.{
  ◌≡◌, refl, ap, ◌∙◌, Option, none, some, List, [], ◌∷◌, ◌++◌, Option-cases, inl, inr,
}
use dizzchat.Messaging.Message.{Message}
use dizzchat.Realtime.Websocket.{Frame, message_new}

-- The frames on the socket, the latest first, by those that the endpoint itself sends. A broadcast
-- reaches sockets that have joined, which they do after their first frame.
pub data OnWire : List Frame → List Frame → Type 0 where
  silent : OnWire [] []
  own :
      {sent wire : List Frame} (frame : Frame)
      → OnWire sent wire
      → OnWire (frame ∷ sent) (frame ∷ wire)
  live :
      {frame : Frame} {sent wire : List Frame} (m : Message)
      → OnWire (frame ∷ sent) wire
      → OnWire (frame ∷ sent) (message_new m ∷ wire)

-- The frames stand on the wire in this order, with others in between.
pub data Amid : List Frame → List Frame → Type 0 where
  nothing : {wire : List Frame} → Amid [] wire
  here :
      {frames wire : List Frame} (frame : Frame)
      → Amid frames wire
      → Amid (frame ∷ frames) (frame ∷ wire)
  between :
      {frames wire : List Frame} (frame : Frame) → Amid frames wire → Amid frames (frame ∷ wire)

OnWire-Amid : {sent wire : List Frame} → OnWire sent wire → Amid sent wire
OnWire-Amid silent = nothing
OnWire-Amid (own frame h) = here frame (OnWire-Amid h)
OnWire-Amid (live m h) = between (message_new m) (OnWire-Amid h)

Amid-tail :
    {frame : Frame} {frames wire : List Frame} → Amid (frame ∷ frames) wire → Amid frames wire
Amid-tail (here frame h) = between frame h
Amid-tail (between other h) = between other (Amid-tail h)

Amid-append :
    (later : List Frame) {frames wire : List Frame} → Amid (later ++ frames) wire → Amid frames wire
Amid-append [] h = h
Amid-append (frame ∷ later) h = Amid-append later (Amid-tail h)

-- What the endpoint sends stands on the wire in its order.
pub OnWire-suffix :
    (later frames : List Frame) {wire : List Frame}
    → OnWire (later ++ frames) wire
    → Amid frames wire
OnWire-suffix later frames h = Amid-append later (OnWire-Amid h)

-- The frame that was sent first.
abbrev pub oldest : List Frame → Option Frame
oldest [] = none
oldest (frame ∷ frames) = elim (oldest frames) [ none ↦ some frame | some f ↦ some f ]

pub oldest-append :
    (later frames : List Frame) (frame : Frame)
    → oldest frames ≡ some frame
    → oldest (later ++ frames) ≡ some frame
oldest-append [] frames frame h = h
oldest-append (f ∷ later) frames frame h = rw (oldest-append later frames frame h) refl

pub OnWire-oldest : {sent wire : List Frame} → OnWire sent wire → oldest wire ≡ oldest sent
OnWire-oldest silent = refl
OnWire-oldest (own frame h) =
    ap (λ (o : Option Frame). elim o [ none ↦ some frame | some f ↦ some f ]) (OnWire-oldest h)
OnWire-oldest (live {frame} {sent} m h) =
    ap (λ (o : Option Frame). elim o [ none ↦ some (message_new m) | some f ↦ some f ])
      (OnWire-oldest h)
    ∙ (elim (Option-cases (oldest sent)) [ inl e ↦ rw e refl | inr (f, e) ↦ rw e refl ])
