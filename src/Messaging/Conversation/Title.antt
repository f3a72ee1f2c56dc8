-- ===== src/Messaging/Conversation/Title.antt =====
-- What the title constructor accepts, and what it makes of it.
use dizzchat.Prelude.{◌≡◌, ◌≢◌, sym, subst, ◌≤◌, [], arith, length, ok}
use dizzchat.Text.{Text, strip}
use dizzchat.Text.Strip.{strip-strip}
use dizzchat.Messaging.Conversation.{conversation_title}

-- An accepted title is the stripped text.
pub conversation_title-eq-strip :
    (value : Text) {title : Text} → conversation_title value ≡ ok title → title ≡ strip value
unfolding conversation_title
conversation_title-eq-strip value h = ground arith

fits :
    (value : Text) {title : Text}
    → conversation_title value ≡ ok title
    → (title ≢ []) × (length title ≤ 200)
unfolding conversation_title
fits value h = ground arith

reread :
    (value : Text) {title : Text}
    → conversation_title value ≡ ok title
    → conversation_title (strip value) ≡ ok title
unfolding conversation_title
reread value h = ground (arith, strip-strip value)

-- A title that was accepted is the stripped text, is not empty, has at most 200 characters, and is
-- accepted unchanged when it is read back from its column.
pub conversation_title_accepted :
    (value : Text) {title : Text}
    → conversation_title value ≡ ok title
    → (title ≡ strip value)
      × (title ≢ [])
      × (length title ≤ 200)
      × (conversation_title title ≡ ok title)
conversation_title_accepted value {title} h =
    let e = conversation_title-eq-strip value h in
    let (nonempty, short) = fits value h in
    (e, nonempty, short, subst (λ s. conversation_title s ≡ ok title) (sym e) (reread value h))
