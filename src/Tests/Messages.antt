-- ===== src/Tests/Messages.antt =====
-- The theorems on reading and posting messages at concrete inputs.
use mathlib.Core.List.{reverse}
use dizzchat.Prelude.{
  ◌≡◌, refl, ap, Bool, false, List, [], ◌∷◌, ◌++◌, ltb, none, some, ok, length, take, find?,
  is_some, not, arith,
}
use dizzchat.Text.{codes}
use dizzchat.Messaging.Conversation.{is_participant}
use dizzchat.Messaging.Message.{Message}
use dizzchat.Messaging.Ports.{IsLog, older, newer}
use dizzchat.Messaging.Services.ReplayMessages
use dizzchat.Messaging.Services.ReplayMessages.Complete.{execute-replays}
use dizzchat.Messaging.Services.GetConversationHistory
use dizzchat.Messaging.Services.GetConversationHistory.{MessagePage}
use dizzchat.Messaging.Services.GetConversationHistory.Pages.{following, execute-pages}
use dizzchat.Messaging.Services.PostMessage.Idempotent.{post, from_user-idempotent}
use dizzchat.Storage.Rows.{Database}
use dizzchat.Storage.Conversations.{sqlalchemy_conversation_repository, get}
use dizzchat.Storage.Messages.{sqlalchemy_message_repository}
use dizzchat.Storage.Messages.Log.{channel, Holds-IsLog}
use dizzchat.Storage.Messages.Writes.{keyed}
use dizzchat.Messaging.Outbound.{write_from_user}
use dizzchat.Messaging.Services.PostMessage.Logged.{HoldsAfter, write_from_user-HoldsAfter}
use dizzchat.Messaging.Services.PostMessage.Answered.{answer, post-answer}
use dizzchat.Storage.Conversations.{read_active}
use dizzchat.Tests.Fixtures.{
  store, store-Holds, store-team, team, first, second, hello, hello_is_content,
}

abbrev log : List Message
log = channel (second ∷ first ∷ []) 7

Holds-IsLog_example : IsLog sqlalchemy_message_repository store (channel (second ∷ first ∷ []))
Holds-IsLog_example = Holds-IsLog store (second ∷ first ∷ []) store-Holds

execute-replays_example :
    ReplayMessages.execute sqlalchemy_message_repository 2 7 (some 1) store
    ≡ (ok (some (newer (some 1) (reverse log))), store)
execute-replays_example =
    execute-replays sqlalchemy_message_repository store (channel (second ∷ first ∷ []))
      (Holds-IsLog store (second ∷ first ∷ []) store-Holds) 2 7 (some 1) (omega arith)

team_is_read : get 7 store ≡ (ok (some team), store)
unfolding get
team_is_read = ap (λ r. (r, store)) store-team

execute-pages_example :
    (page : MessagePage) × (GetConversationHistory.execute sqlalchemy_conversation_repository
        sqlalchemy_message_repository 7 2 none 1 store
      ≡ (ok page, store))
    × (page.items ≡ take 1 (older none log))
    × (page.has_more ≡ ltb 1 (length (older none log)))
    × (page.items ++ following page log ≡ older none log)
unfolding is_participant
execute-pages_example =
    execute-pages sqlalchemy_conversation_repository sqlalchemy_message_repository store
      (channel (second ∷ first ∷ [])) (Holds-IsLog store (second ∷ first ∷ []) store-Holds) 0 7 2
      none team_is_read refl

from_user-idempotent_example :
    (m : Message) × (created : Bool) × (db' : Database) × (post 7 2 hello (some 60) 200 store
      ≡ (ok (m, created), db'))
    × (created ≡ not (is_some (find? (keyed 7 60) (second ∷ first ∷ []))))
    × (post 7 2 (codes "again") (some 60) 300 db' ≡ (ok (m, false), db'))
unfolding is_participant
from_user-idempotent_example =
    from_user-idempotent store (second ∷ first ∷ []) 7 2 60 team hello (codes "again") 200 300
      store-Holds store-team refl hello_is_content

write_from_user-HoldsAfter_example :
    HoldsAfter (second ∷ first ∷ []) (write_from_user 7 2 hello (some 60) 200 store)
write_from_user-HoldsAfter_example =
    write_from_user-HoldsAfter 7 2 hello (some 60) 200 store (second ∷ first ∷ []) store-Holds
      hello_is_content

post-answer_example :
    post 7 2 hello (some 60) 200 store
    ≡ answer 7 2 hello (some 60) 200 store (second ∷ first ∷ []) (read_active 7 store)
post-answer_example =
    post-answer 7 2 hello (some 60) 200 store (second ∷ first ∷ []) store-Holds hello_is_content
