-- ===== src/Identity/RefreshAccessToken/Rotation.antt =====
-- That a refresh token is good for one rotation.
use dizzchat.Storage.RefreshTokens.{sqlalchemy_refresh_token_repository}
use dizzchat.Prelude.{
  ◌≡◌, refl, sym, subst, ◌∙◌, true, arith, any, find?, ok, err, is_some, Bool-cases, Option-cases,
  Result-cases, inl, inr,
}
use dizzchat.Text.{Text}
use dizzchat.Errors.{Error, refresh_token_error}
use dizzchat.Messaging.Conversation.{Uuid, Time}
use dizzchat.Identity.RefreshToken.{RefreshToken, rotate, is_active, revoke}
use dizzchat.Identity.TokenService.{generate_refresh, parse_refresh, verify_refresh}
use dizzchat.Storage.Rows.{Database}
use dizzchat.Storage.Session.{◌>>◌, pure}
use dizzchat.Storage.RefreshTokens.{to_domain, has_jti, add, get_by_jti, save}
use dizzchat.Storage.RefreshTokens.Revoked.{find_any, Used, UsedAfter, save-UsedAfter}
use dizzchat.Identity.RefreshAccessToken.{TokenPair, execute}

-- A token that is rotated is revoked then, and stays the same otherwise.
rotate-revoked :
    (now : Time) (jti hashed : Text) (ttl : Time) (token revoked rotated : RefreshToken)
    → rotate now jti hashed ttl token ≡ ok (revoked, rotated)
    → (revoked.jti ≡ token.jti) × (is_some revoked.revoked_at ≡ true)
unfolding rotate revoke
rotate-revoked now jti hashed ttl token revoked rotated h = ground arith

-- A revoked token cannot be rotated.
rotate-refused :
    (now : Time) (jti hashed : Text) (ttl : Time) (token : RefreshToken)
    → is_some token.revoked_at ≡ true
    → rotate now jti hashed ttl token ≡ err refresh_token_error
unfolding rotate is_active
rotate-refused now jti hashed ttl token h = ground arith

module _ (hash : Text → Text) (issue_access : Uuid → Text) (ttl : Time) where
  -- Presenting a token that was used.
  Used-refused :
      (token jti secret : Text) (now : Time) (new_jti new_secret : Text) (db : Database)
      → parse_refresh token ≡ ok (jti, secret)
      → Used jti db
      → execute sqlalchemy_refresh_token_repository hash issue_access ttl token now new_jti
          new_secret db
        ≡ (err refresh_token_error, db)
  unfolding execute get_by_jti generate_refresh
  Used-refused token jti secret now new_jti new_secret db parsed (row, found, revoked) =
      elim (Bool-cases (verify_refresh hash secret row.token_hash)) [
        | inl matches ↦
            rw (parsed, execute)
              (rw found (
                rw matches (
                  rw (rotate-refused now new_jti (hash new_secret) ttl (to_domain row) revoked)
                    refl)))
        | inr wrong ↦ rw (parsed, execute) (rw found (rw wrong refl))
      ]

  malformed_refused :
      (token : Text) (now : Time) (new_jti new_secret : Text) (db : Database) (e : Error)
      → parse_refresh token ≡ err e
      → execute sqlalchemy_refresh_token_repository hash issue_access ttl token now new_jti
          new_secret db
        ≡ (err e, db)
  unfolding execute
  malformed_refused token now new_jti new_secret db e malformed = rw (malformed, execute) refl

  -- A rotation that returns.
  execute-UsedAfter :
      (token jti secret : Text) (now : Time) (new_jti new_secret : Text) (db : Database)
      → parse_refresh token ≡ ok (jti, secret)
      → UsedAfter jti (
          execute sqlalchemy_refresh_token_repository hash issue_access ttl token now new_jti
            new_secret db)
  unfolding execute get_by_jti generate_refresh
  execute-UsedAfter token jti secret now new_jti new_secret db parsed =
      elim (Option-cases (find? (has_jti jti) db.refresh_tokens)) [
        | inl missing ↦ rw (parsed, execute) (rw missing tt)
        | inr (row, found) ↦ elim (Bool-cases (verify_refresh hash secret row.token_hash)) [
          | inr wrong ↦ rw (parsed, execute) (rw found (rw wrong tt))
          | inl matches ↦
              elim (Result-cases (rotate now new_jti (hash new_secret) ttl (to_domain row))) [
                | inl (e, refused) ↦ rw (parsed, execute) (rw found (rw matches (rw refused tt)))
                | inr ((revoked, rotated), renewed) ↦
                    let (known, same) = find_any jti db.refresh_tokens found in
                    let (kept, gone) =
                      rotate-revoked now new_jti (hash new_secret) ttl (to_domain row) revoked
                        rotated renewed in
                    let there : any (has_jti revoked.jti) db.refresh_tokens ≡ true =
                      subst (λ j. any (has_jti j) db.refresh_tokens ≡ true) (sym (kept ∙ same))
                        known in
                    let pair : TokenPair = record {
                      access_token = issue_access row.user_id;
                      refresh_token = (generate_refresh hash new_jti new_secret).token;
                    } in
                    rw (parsed, execute)
                      (rw found (
                        rw matches (
                          rw renewed (
                            subst
                              (λ j. UsedAfter j ((save revoked >> (add rotated >> pure pair)) db))
                              (kept ∙ same) (save-UsedAfter pair revoked rotated db there gone)))))
              ]
        ]
      ]

  -- A refresh token is good for one rotation: once it was exchanged for a new pair, presenting it
  -- again, at any time, is refused and writes nothing.
  pub execute-once :
      (token : Text) (now later : Time) (new_jti new_secret next_jti next_secret : Text)
      (db db' : Database) (pair : TokenPair)
      → execute sqlalchemy_refresh_token_repository hash issue_access ttl token now new_jti
          new_secret db
        ≡ (ok pair, db')
      → execute sqlalchemy_refresh_token_repository hash issue_access ttl token later next_jti
          next_secret db'
        ≡ (err refresh_token_error, db')
  execute-once token now later new_jti new_secret next_jti next_secret db db' pair returned =
      elim (Result-cases (parse_refresh token)) [
        | inl (e, malformed) ↦
            absurd (cc (malformed_refused token now new_jti new_secret db e malformed, returned))
        | inr ((jti, secret), parsed) ↦
            Used-refused token jti secret later next_jti next_secret db' parsed (
              subst (UsedAfter jti) returned
                (execute-UsedAfter token jti secret now new_jti new_secret db parsed))
      ]
