-- ===== src/Http/Environment.antt =====
-- What the process gives to the dependencies: the settings, the libraries, and what the clock and the
-- random sources give while a request is served. `get_current_user` and the dependencies on the token
-- service in src/dizzchat/contexts/identity/infrastructure/inbound/api/dependencies.py.
use dizzchat.Prelude.{ℕ, ◌*◌, Bool, Option, none, some, ok, err}
use dizzchat.Text.{Text}
use dizzchat.Errors.{Attempt, identity, in_access_token, http_exception}
use dizzchat.Messaging.Conversation.{Uuid, Time}
use dizzchat.Identity.AccessTokens.{Jwt, AccessClaims, issue_access, decode_access}

pub record Settings : Type 0 where
  pub jwt_secret_key : Text
  pub jwt_algorithm : Text
  pub access_token_ttl_seconds : ℕ
  pub refresh_token_ttl_seconds : ℕ

-- `str.lower`, the password hasher, SHA-256 in hexadecimal, and the JWT library.
pub record Libraries : Type 0 where
  pub lower : Text → Text
  pub hash_password : ℕ → Text → Text
  pub verify : Text → Text → Bool
  pub sha256 : Text → Text
  pub jwt : Jwt

-- The time, a salt, a fresh UUID, and the parts of a fresh refresh token.
pub record Draws : Type 0 where
  pub now : Time
  pub salt : ℕ
  pub uuid : Uuid
  pub jti : Text
  pub secret : Text

abbrev pub seconds : ℕ → Time
seconds n = n * 1000000

pub record AuthenticatedUser : Type 0 where
  pub user_id : Uuid

-- `except InvalidAccessToken`: what is raised in its place.
abbrev pub or_unauthorized : Attempt AccessClaims → Attempt AuthenticatedUser
or_unauthorized (ok claims) = ok record { user_id = claims.user_id }
or_unauthorized (err (identity (in_access_token _))) = err (http_exception 401)
or_unauthorized (err e) = err e

module _ (settings : Settings) (libraries : Libraries) where
  -- The methods of `get_token_service(settings)`.
  unfoldable pub issue_token : Time → Uuid → Text
  issue_token now user_id =
      issue_access libraries.jwt settings.jwt_secret_key settings.jwt_algorithm
        (seconds settings.access_token_ttl_seconds) user_id now

  unfoldable pub decode_token : Text → Time → Attempt AccessClaims
  decode_token token now =
      decode_access libraries.jwt settings.jwt_secret_key settings.jwt_algorithm token now

  -- `get_current_user(credentials, tokens)`
  unfoldable pub get_current_user : Option Text → Time → Attempt AuthenticatedUser
  unfolding decode_token
  get_current_user none now = err (http_exception 401)
  get_current_user (some credentials) now = or_unauthorized (decode_token credentials now)
