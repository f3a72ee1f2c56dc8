-- ===== src/Identity/User.antt =====
-- src/dizzchat/contexts/identity/domain/user: the addresses and the aggregate. `lower` is `str.lower`,
-- and the hasher is an argument: `hash_password` with the salt that it draws, and `verify`.
use dizzchat.Prelude.{
  ℕ, Bool, true, false, ◌&&◌, ◌||◌, not, [], ◌∷◌, ◌==◌, ok, err, ◌>>=◌, is_empty, if◌then◌else◌,
}
use dizzchat.Text.{Text, strip, is_space, partition}
use dizzchat.Errors.{Attempt, user_error, invalid_email, value_error}
use dizzchat.Messaging.Conversation.{Uuid, Time}

-- A character that `[^@\s]` matches.
abbrev pub address_char : ℕ → Bool
address_char c = not (c == 64 || is_space c)

abbrev pub all_address : Text → Bool
all_address [] = true
all_address (c ∷ s) = address_char c && all_address s

-- What `[^@\s]*\.[^@\s]+` matches to the end, the characters being tested apart.
abbrev pub dotted : Text → Bool
dotted [] = false
dotted (c ∷ s) = c == 46 && not (is_empty s) || dotted s

-- `^[^@\s]+@[^@\s]+\.[^@\s]+$`, but for the line end that `$` allows behind it.
abbrev pub whole_address : Text × Bool × Text → Bool
whole_address (local, found, []) = false
whole_address (local, found, c ∷ domain) =
    found && not (is_empty local) && all_address local && all_address (c ∷ domain) && dotted domain

-- A text without the line feed at its end, if there is one.
abbrev pub before_line_end : Text → Text
before_line_end [] = []
before_line_end (c ∷ s) =
    let rest = before_line_end s in if is_empty s && c == 10 then [] else c ∷ rest

-- `_EMAIL_PATTERN.match(text)`
unfoldable pub email_pattern : Text → Bool
unfolding is_space partition
email_pattern text = whole_address (partition 64 (before_line_end text))

-- `Email(value).value`
unfoldable pub email_address : (Text → Text) → Text → Attempt Text
unfolding email_pattern strip
email_address lower value =
    let normalized = lower (strip value) in
    if not (email_pattern normalized) then err (user_error (invalid_email value)) else ok normalized

-- `PasswordHash(value)`
unfoldable pub password_hash : Text → Attempt Text
password_hash value = if is_empty value then err value_error else ok value

pub record User : Type 0 where
  pub id : Uuid
  pub email : Text
  pub password_hash : Text
  pub created_at : Time

-- `User.register`
unfoldable pub register : (ℕ → Text → Text) → ℕ → Uuid → Text → Text → Time → Attempt User
register hash_password salt user_id email plaintext_password created_at = do
  hashed ← password_hash (hash_password salt plaintext_password)
  ok (record { id = user_id; email = email; password_hash = hashed; created_at = created_at })
