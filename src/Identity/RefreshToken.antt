-- ===== src/Identity/RefreshToken.antt =====
-- src/dizzchat/contexts/identity/domain/refresh_token/refresh_token.py. A time and a span of time are
-- numbers of one unit.
use dizzchat.Prelude.{
  ◌+◌, Bool, ◌&&◌, not, Option, none, some, ok, err, ltb, is_some, if◌then◌else◌,
}
use dizzchat.Text.{Text, text_eq}
use dizzchat.Errors.{Attempt, refresh_token_error}
use dizzchat.Messaging.Conversation.{Uuid, Time}

pub record RefreshToken : Type 0 where
  pub jti : Text
  pub user_id : Uuid
  pub token_hash : Text
  pub expires_at : Time
  pub revoked_at : Option Time

unfoldable pub issue : Text → Uuid → Text → Time → Time → RefreshToken
issue jti user_id token_hash issued_at ttl = record {
  jti = jti;
  user_id = user_id;
  token_hash = token_hash;
  expires_at = issued_at + ttl;
  revoked_at = none;
}

unfoldable pub is_active : Time → RefreshToken → Bool
is_active now token = not (is_some token.revoked_at) && ltb now token.expires_at

unfoldable pub revoke : Time → RefreshToken → RefreshToken
revoke now token =
    if is_some token.revoked_at then token else record token { revoked_at = some now }

-- The token as it is then, and its successor.
unfoldable pub rotate :
    Time → Text → Text → Time → RefreshToken → Attempt (RefreshToken × RefreshToken)
unfolding is_active revoke issue
rotate now new_jti new_token_hash ttl token =
    if not (is_active now token)
    then err refresh_token_error
    else ok (revoke now token, issue new_jti token.user_id new_token_hash now ttl)

-- `__eq__`: entities are equal by identity.
unfoldable pub same_token : RefreshToken → RefreshToken → Bool
unfolding text_eq
same_token a b = text_eq b.jti a.jti
