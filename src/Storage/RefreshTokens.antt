-- ===== src/Storage/RefreshTokens.antt =====
-- src/dizzchat/contexts/identity/infrastructure/outbound/persistence/repositories/
-- sqlalchemy_refresh_token_repository.py, over the table of refresh tokens. What the session would
-- flush at its end is written at once: both end the unit of work with the same error.
pub mod Revoked
use dizzchat.Prelude.{
  Bool, true, false, ◌||◌, not, Option, none, some, List, [], ◌∷◌, map, ◌==◌, any, find?, ok, err,
  if◌then◌else◌,
}
use mathlib.Core.Option
use dizzchat.Text.{Text, text_eq}
use dizzchat.Errors.{integrity_error}
use dizzchat.Messaging.Conversation.{Uuid}
use dizzchat.Identity.Ports.{RefreshTokenRepository}
use dizzchat.Identity.RefreshToken.{RefreshToken}
use dizzchat.Storage.Rows.{UserRow, RefreshTokenRow, Database}
use dizzchat.Storage.Session.{Action, gets}

abbrev pub to_model : RefreshToken → RefreshTokenRow
to_model token = record {
  jti = token.jti;
  user_id = token.user_id;
  token_hash = token.token_hash;
  expires_at = token.expires_at;
  revoked_at = token.revoked_at;
}

abbrev pub to_domain : RefreshTokenRow → RefreshToken
to_domain model = record {
  jti = model.jti;
  user_id = model.user_id;
  token_hash = model.token_hash;
  expires_at = model.expires_at;
  revoked_at = model.revoked_at;
}

abbrev pub has_jti : Text → RefreshTokenRow → Bool
has_jti jti row = text_eq row.jti jti

-- The insert: the key must be new, and the user must exist.
unfoldable pub add : RefreshToken → Action Database (Unit {0})
add token db =
    if any (has_jti token.jti) db.refresh_tokens
      || not (any (λ (user : UserRow). user.id == token.user_id) db.users)
    then (err integrity_error, db)
    else (ok tt, record db { refresh_tokens = to_model token ∷ db.refresh_tokens })

unfoldable pub get_by_jti : Text → Action Database (Option RefreshToken)
get_by_jti jti = gets λ db. Option.map to_domain (find? (has_jti jti) db.refresh_tokens)

-- The rows, with that of the token replaced.
abbrev pub merged : RefreshToken → List RefreshTokenRow → List RefreshTokenRow
merged token rows = map (λ row. if has_jti token.jti row then to_model token else row) rows

-- `session.merge`, of a token that was loaded: its row is there.
unfoldable pub save : RefreshToken → Action Database (Unit {0})
save token db =
    if any (has_jti token.jti) db.refresh_tokens
    then (ok tt, record db { refresh_tokens = merged token db.refresh_tokens })
    else add token db

abbrev pub sqlalchemy_refresh_token_repository : RefreshTokenRepository Database
sqlalchemy_refresh_token_repository = record { add = add; get_by_jti = get_by_jti; save = save }
