-- ===== src/Identity/Services.antt =====
-- src/dizzchat/contexts/identity/application/services/register_user.py and authenticate_user.py, and
-- .../messaging/infrastructure/outbound/identity/identity_user_directory.py, over the repositories'
-- ports. The times, the UUIDs, the salts and the random texts are arguments.
pub mod Accounts
use dizzchat.Prelude.{
  ℕ, Bool, true, false, not, Option, none, some, ok, err, is_some, guard, require, Result,
}
use mathlib.Core.Option
use dizzchat.Text.{Text}
use dizzchat.Errors.{
  Attempt, Error, user_error, email_already_registered, invalid_credentials, identity, in_user,
  invalid_email,
}
use dizzchat.Messaging.Conversation.{Uuid, Time}
use dizzchat.Messaging.Ports.{UserDirectory}
use dizzchat.Identity.Ports.{UserRepository, RefreshTokenRepository}
use dizzchat.Identity.User.{User, email_address, register}
use dizzchat.Identity.RefreshToken.{issue}
use dizzchat.Identity.TokenService.{generate_refresh}
use dizzchat.Identity.RefreshAccessToken.{TokenPair}
use dizzchat.Storage.Session.{Action, ◌>>=◌, ◌>>◌, pure, lift}

-- `except InvalidEmail`: what is raised in its place.
abbrev pub in_place_of_invalid_email : Attempt Text → Error → Attempt Text
in_place_of_invalid_email (ok address) instead = ok address
in_place_of_invalid_email (err (identity (in_user (invalid_email value)))) instead = err instead
in_place_of_invalid_email (err e) instead = err e

module _ {S : Type 0} (users : UserRepository S) (lower : Text → Text)
    (hash_password : ℕ → Text → Text) (verify : Text → Text → Bool) where
  -- `RegisterUser.execute`
  unfoldable pub register_user : Text → Text → ℕ → Uuid → Time → Action S User
  register_user email password salt fresh now = do
    address ← lift (email_address lower email)
    existing ← users.get_by_email address
    lift (guard (not (is_some existing)) (user_error (email_already_registered address)))
    user ← lift (register hash_password salt fresh address password now)
    users.add user
    pure user

  module _ (tokens : RefreshTokenRepository S) (hash : Text → Text) (issue_access : Uuid → Text)
      (refresh_ttl : Time) where
    -- `AuthenticateUser.execute`
    unfoldable pub authenticate_user : Text → Text → Time → Text → Text → Action S TokenPair
    authenticate_user email password now jti secret = do
      address ←
          lift
            (in_place_of_invalid_email (email_address lower email) (user_error invalid_credentials))
      found ← users.get_by_email address
      user ← lift (require found (user_error invalid_credentials))
      lift (guard (verify password user.password_hash) (user_error invalid_credentials))
      let generated = generate_refresh hash jti secret
      tokens.add (issue generated.jti user.id generated.token_hash now refresh_ttl)
      pure record { access_token = issue_access user.id; refresh_token = generated.token }

-- `IdentityUserDirectory`: what `Email` raises is always `InvalidEmail`.
unfoldable pub find_id_by_email :
    {S : Type 0} → UserRepository S → (Text → Text) → Text → Action S (Option Uuid)
find_id_by_email users lower email = elim (email_address lower email) [
  | err _ ↦ pure none
  | ok address ↦ do
    found ← users.get_by_email address
    pure (Option.map (λ (user : User). user.id) found)
]

abbrev pub identity_user_directory :
    {S : Type 0} → UserRepository S → (Text → Text) → UserDirectory S
identity_user_directory users lower = record { find_id_by_email = find_id_by_email users lower }
