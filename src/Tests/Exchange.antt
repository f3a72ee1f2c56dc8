-- ===== src/Tests/Exchange.antt =====
-- The theorems on the exchange at concrete inputs.
use dizzchat.Prelude.{◌≡◌, refl, true, none, some, [], ◌∷◌, ok, inl, inr}
use dizzchat.Text.{codes}
use dizzchat.Messaging.Conversation.{is_participant}
use dizzchat.Messaging.Services.MessageExchange.Durable.{
  World, IsDurable, run_exchange, exchange-IsDurable,
}
use dizzchat.Messaging.Services.MessageExchange.Delivery.{exchange-delivers, exchange-repeats}
use dizzchat.Storage.Messages.Writes.{with_message, new_message}
use dizzchat.Messaging.Message.{user, assistant, Message}
use dizzchat.Tests.Fixtures.{
  store, store-Holds, store-team, team, first, second, hello, hello_is_content,
}

abbrev world : World
world = record { db = store; published = (7, first) ∷ [] }

world-IsDurable : IsDurable world
world-IsDurable = ((inr (inl refl), refl), tt)

exchange-IsDurable_example : IsDurable (run_exchange 200 201 (λ _. true) 7 2 hello none world).1
exchange-IsDurable_example =
    exchange-IsDurable 200 201 (λ _. true) 7 2 hello none world world-IsDurable

abbrev asked : Message
asked = new_message 5 7 (some 2) user hello 200 (some 60)

abbrev answered : Message
answered = new_message 6 7 none assistant (codes "You said: hello") 201 none

exchange-delivers_example : run_exchange 200 201 (λ _. true) 7 2 hello (some 60) world ≡ (
  ok asked,
  record {
    db = with_message answered (with_message asked store);
    published = (7, answered) ∷ (7, asked) ∷ (7, first) ∷ [];
  },
)
unfolding is_participant
exchange-delivers_example =
    exchange-delivers 200 201 (λ _. true) 7 2 hello (some 60) world (second ∷ first ∷ []) team
      store-Holds store-team refl hello_is_content refl (λ _. refl)

exchange-repeats_example :
    run_exchange 300 301 (λ _. true) 7 2 (codes "again") (some 55) world ≡ (ok second, world)
unfolding is_participant
exchange-repeats_example =
    exchange-repeats 300 301 (λ _. true) 7 2 (codes "again") 55 world (second ∷ first ∷ []) team
      second store-Holds store-team refl refl
