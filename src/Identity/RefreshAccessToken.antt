-- ===== src/Identity/RefreshAccessToken.antt =====
-- src/dizzchat/contexts/identity/application/services/refresh_access_token.py, over the repository's
-- port. `issue_access` signs an access token; the time and the random texts of
-- the new refresh token are arguments.
pub mod Rotation
pub mod Successor
use dizzchat.Prelude.{Bool, true, false, ◌||◌, not, Option, none, some, require, guard}
use dizzchat.Text.{Text}
use dizzchat.Errors.{refresh_token_error}
use dizzchat.Messaging.Conversation.{Uuid, Time}
use dizzchat.Identity.RefreshToken.{RefreshToken, rotate}
use dizzchat.Identity.TokenService.{
  GeneratedRefreshToken, generate_refresh, parse_refresh, verify_refresh,
}
use dizzchat.Storage.Session.{Action, ◌>>=◌, ◌>>◌, pure, lift}
use dizzchat.Identity.Ports.{RefreshTokenRepository}

pub record TokenPair : Type 0 where
  pub access_token : Text
  pub refresh_token : Text

module _ {S : Type 0} (tokens : RefreshTokenRepository S) (hash : Text → Text)
    (issue_access : Uuid → Text) (refresh_ttl : Time) where
  unfoldable pub execute : Text → Time → Text → Text → Action S TokenPair
  execute refresh_token now new_jti new_secret = do
    (jti, secret) ← lift (parse_refresh refresh_token)
    found ← tokens.get_by_jti jti
    stored ← lift (require found refresh_token_error)
    lift (guard (verify_refresh hash secret stored.token_hash) refresh_token_error)
    let generated = generate_refresh hash new_jti new_secret
    (revoked, rotated) ← lift (rotate now generated.jti generated.token_hash refresh_ttl stored)
    tokens.save revoked
    tokens.add rotated
    pure record { access_token = issue_access stored.user_id; refresh_token = generated.token }
