-- ===== src/Identity/Ports.antt =====
-- The ports of src/dizzchat/contexts/identity/domain/*/repository.py, over the state `S` of a session.
use dizzchat.Prelude.{Option}
use dizzchat.Text.{Text}
use dizzchat.Storage.Session.{Action}
use dizzchat.Identity.User.{User}
use dizzchat.Identity.RefreshToken.{RefreshToken}

-- An address is the text of an `Email`.
pub record UserRepository {ℓ} (S : Type ℓ) : Type ℓ where
  pub add : User → Action S (Unit {0})
  pub get_by_email : Text → Action S (Option User)

pub record RefreshTokenRepository {ℓ} (S : Type ℓ) : Type ℓ where
  pub add : RefreshToken → Action S (Unit {0})
  pub get_by_jti : Text → Action S (Option RefreshToken)
  pub save : RefreshToken → Action S (Unit {0})
