-- ===== src/Tests/Conversations.antt =====
-- The aggregate's theorems at concrete inputs.
use dizzchat.Prelude.{◌≡◌, refl, ok}
use dizzchat.Text.{codes, strip}
use dizzchat.Messaging.Conversation.{conversation_title, start, add_participant}
use dizzchat.Messaging.Conversation.Membership.{
  IsWellFormed, started, admitted, Reached-IsWellFormed,
}
use dizzchat.Tests.Fixtures.{store}
use dizzchat.Text.{Text}
use dizzchat.Errors.{Attempt}
use dizzchat.Prelude.{Option, some}
use dizzchat.Messaging.Conversation.{Uuid}
use dizzchat.Storage.Rows.{Database}
use dizzchat.Messaging.Services.Directory.{answer, settled, without_member}
use dizzchat.Messaging.Services.Directory.View.{view}
use dizzchat.Messaging.Services.Directory.Refined.{served-answer}
use dizzchat.Messaging.Services.Tables.{served, to_remove}

title_is_stripped : conversation_title (codes "  team ") ≡ ok (codes "team")
unfolding conversation_title strip
title_is_stripped = refl

Reached-IsWellFormed_example : IsWellFormed (add_participant 2 (start 7 1 (codes "team") 90)).0
Reached-IsWellFormed_example = Reached-IsWellFormed (admitted 2 _ (started 7 1 (codes "team") 90))

abbrev directory : Text → Database → Attempt (Option Uuid)
directory email db = ok (some 2)

-- User 2 leaves the conversation.
served-answer_example :
    view (served directory (to_remove 7 2 2) store)
    ≡ settled (view store) (answer (λ email. directory email store) (to_remove 7 2 2) (view store))
unfolding conversation_title strip
served-answer_example =
    served-answer directory (to_remove 7 2 2) store
      record {
        ids_unique = (refl, tt);
        members_unique = (refl, (refl, tt));
        titles = (refl, tt);
        linked = (refl, (refl, tt));
        owners = (refl, tt);
      }
      tt

left :
    answer (λ email. directory email store) (to_remove 7 2 2) (view store)
    ≡ ok (without_member 7 2 (view store))
unfolding answer
left = refl
