-- ===== src/Identity/AccessTokens.antt =====
-- The access tokens of src/dizzchat/contexts/identity/infrastructure/outbound/security/
-- jwt_token_service.py. The JWT library and the text form of a UUID are arguments; a time is a number
-- of microseconds, and the JWT's are seconds.
use dizzchat.Prelude.{
  ℕ, ◌≡◌, refl, ◌+◌, ◌/◌, ◌≤◌, Option, none, some, arith, ok, err, ltb, if◌then◌else◌, Bool-cases,
  inl, inr,
}
use dizzchat.Text.{Text}
use dizzchat.Errors.{Attempt, access_token_error}
use dizzchat.Messaging.Conversation.{Uuid, Time}

pub record AccessPayload : Type 0 where
  pub sub : Text
  pub iat : ℕ
  pub exp : ℕ

pub record AccessClaims : Type 0 where
  pub user_id : Uuid

-- `jwt.encode(payload, key, algorithm)`; `jwt.decode(token, key, algorithms)` at a time, which is
-- nothing for a `PyJWTError` and else what is under "sub", if something is; and `str(uuid)` and
-- `UUID(text)`, which is nothing for a `ValueError`.
pub record Jwt : Type 0 where
  pub encode : AccessPayload → Text → Text → Text
  pub decode : Time → Text → Text → Text → Option (Option Text)
  pub uuid_str : Uuid → Text
  pub uuid_parse : Text → Option Uuid

-- `int(time.timestamp())`
abbrev pub timestamp : Time → ℕ
timestamp t = t / 1000000

module _ (jwt : Jwt) (secret_key algorithm : Text) where
  unfoldable pub issue_access : Time → Uuid → Time → Text
  issue_access access_ttl user_id now =
      jwt.encode
        record {
          sub = jwt.uuid_str user_id;
          iat = timestamp now;
          exp = timestamp (now + access_ttl);
        }
        secret_key algorithm

  abbrev pub claims_of : Option (Option Text) → Attempt AccessClaims
  claims_of none = err access_token_error
  claims_of (some none) = err access_token_error
  claims_of (some (some sub)) = elim (jwt.uuid_parse sub) [
    | none ↦ err access_token_error
    | some user_id ↦ ok record { user_id = user_id }
  ]

  unfoldable pub decode_access : Text → Time → Attempt AccessClaims
  decode_access token now = claims_of (jwt.decode now token secret_key algorithm)

-- What the library documents of a token that it made with the same key and algorithm: it is accepted
-- from the second in which it was issued until its expiry. The text of a UUID is read back as it.
pub record IsJwt (jwt : Jwt) : Type 0 where
  pub decode-encode :
      (payload : AccessPayload) (key algorithm : Text) (now : Time)
      → payload.iat ≤ timestamp now
      → jwt.decode now (jwt.encode payload key algorithm) key algorithm
        ≡ (if ltb (timestamp now) payload.exp then some (some payload.sub) else none)
  pub uuid_parse-uuid_str : (u : Uuid) → jwt.uuid_parse (jwt.uuid_str u) ≡ some u

-- Where the JWT library accepts its own tokens until they expire: a token that was issued for a user
-- names this user at any later time whose second is before that of the expiry, and is refused from
-- that second on.
pub decode_access-issue_access :
    (jwt : Jwt) (secret_key algorithm : Text) (ttl : Time) (u : Uuid) (now later : Time)
    → IsJwt jwt
    → now ≤ later
    → decode_access jwt secret_key algorithm (issue_access jwt secret_key algorithm ttl u now) later
      ≡ (if ltb (timestamp later) (timestamp (now + ttl))
          then ok record { user_id = u }
          else err access_token_error)
unfolding issue_access decode_access
decode_access-issue_access jwt secret_key algorithm ttl u now later laws h =
    let seconds : timestamp now ≤ timestamp later = omega (arith, h) in
    let payload : AccessPayload = record {
      sub = jwt.uuid_str u;
      iat = timestamp now;
      exp = timestamp (now + ttl);
    } in
    let library = laws.decode-encode payload secret_key algorithm later seconds in
    elim (Bool-cases (ltb (timestamp later) (timestamp (now + ttl)))) [
      | inl early ↦ rw (library, issue_access) (rw early (rw (laws.uuid_parse-uuid_str u) refl))
      | inr late ↦ rw (library, issue_access) (rw late refl)
    ]
