-- ===== src/Identity/TokenService.antt =====
-- The refresh tokens of src/dizzchat/contexts/identity/infrastructure/outbound/security/
-- jwt_token_service.py. `hash` is the SHA-256 digest of a text, in hexadecimal; the random texts are
-- arguments.
use dizzchat.Prelude.{
  ℕ, ◌≡◌, refl, Bool, true, false, ◌||◌, not, [], ◌∷◌, ◌++◌, arith, ok, err, contains, is_empty,
  if◌then◌else◌,
}
use dizzchat.Text.{Text, partition, text_eq}
use dizzchat.Errors.{Attempt, refresh_token_error}

pub record GeneratedRefreshToken : Type 0 where
  pub jti : Text
  pub token : Text
  pub token_hash : Text

-- The code of the separator, the full stop.
abbrev pub separator : ℕ
separator = 46

module _ (hash : Text → Text) where
  unfoldable pub generate_refresh : Text → Text → GeneratedRefreshToken
  generate_refresh jti secret = record {
    jti = jti;
    token = jti ++ (separator ∷ secret);
    token_hash = hash secret;
  }

  unfoldable pub verify_refresh : Text → Text → Bool
  unfolding text_eq
  verify_refresh secret token_hash = text_eq (hash secret) token_hash

unfoldable pub parse_refresh : Text → Attempt (Text × Text)
unfolding partition
parse_refresh token =
    let (jti, found, secret) = partition separator token in
    if not found || is_empty jti || is_empty secret
    then err refresh_token_error
    else ok (jti, secret)

partition-append :
    (jti secret : Text)
    → contains separator jti ≡ false
    → partition separator (jti ++ (separator ∷ secret)) ≡ (jti, true, secret)
unfolding partition
partition-append [] secret h = refl
partition-append (c ∷ jti) secret h = ground (arith, partition-append jti secret (ground arith))

-- A token that was generated is parsed into what it was made of, if its id has no full stop in it
-- and neither part is empty.
pub parse_refresh-generate_refresh :
    (hash : Text → Text) (jti secret : Text)
    → contains separator jti ≡ false
    → is_empty jti ≡ false
    → is_empty secret ≡ false
    → parse_refresh (generate_refresh hash jti secret).token ≡ ok (jti, secret)
unfolding parse_refresh generate_refresh
parse_refresh-generate_refresh hash jti secret no_stop some_jti some_secret =
    rw (partition-append jti secret no_stop, parse_refresh) (rw some_jti (rw some_secret refl))
