-- ===== src/Identity/RefreshAccessToken/Successor.antt =====
-- That the token which a rotation returns is good in its turn.
use dizzchat.Storage.RefreshTokens.{sqlalchemy_refresh_token_repository}
use dizzchat.Prelude.{
  ◌≡◌, refl, sym, subst, ◌∙◌, ◌<◌, ◌+◌, true, false, some, ◌∷◌, arith, any, find?, ok, is_empty,
  contains, lt→ltb, ◌==◌,
}
use dizzchat.Text.{Text, text_eq, text_eq_self}
use dizzchat.Messaging.Conversation.{Uuid, Time}
use dizzchat.Identity.RefreshToken.{RefreshToken, rotate, is_active, revoke, issue}
use dizzchat.Identity.TokenService.{
  separator, generate_refresh, parse_refresh, verify_refresh, parse_refresh-generate_refresh,
}
use dizzchat.Storage.Rows.{UserRow, RefreshTokenRow, Database}
use dizzchat.Storage.RefreshTokens.{to_domain, to_model, has_jti, merged, add, get_by_jti, save}
use dizzchat.Storage.RefreshTokens.Revoked.{find_any, any-merged}
use dizzchat.Identity.RefreshAccessToken.{TokenPair, execute}

module _ (hash : Text → Text) (issue_access : Uuid → Text) (ttl : Time) where
  -- The database after the rotation of a row's token.
  abbrev pub renewed : RefreshTokenRow → Time → Text → Text → Database → Database
  renewed row now new_jti new_secret db = record db {
    refresh_tokens =
        to_model (issue new_jti row.user_id (hash new_secret) now ttl)
        ∷ merged (revoke now (to_domain row)) db.refresh_tokens;
  }

  abbrev pub pair_for : RefreshTokenRow → Text → Text → TokenPair
  pair_for row new_jti new_secret = record {
    access_token = issue_access row.user_id;
    refresh_token = (generate_refresh hash new_jti new_secret).token;
  }

  -- A row whose token can be exchanged by who knows the secret, its user being there.
  pub record IsUsable (row : RefreshTokenRow) (jti secret : Text) (now : Time) (db : Database)
      : Type 0 where
    pub found : find? (has_jti jti) db.refresh_tokens ≡ some row
    pub matches : verify_refresh hash secret row.token_hash ≡ true
    pub active : is_active now (to_domain row) ≡ true
    pub owned : any (λ (user : UserRow). user.id == row.user_id) db.users ≡ true

  revoke-jti : (now : Time) (token : RefreshToken) → (revoke now token).jti ≡ token.jti
  unfolding revoke
  revoke-jti now token = ground arith

  execute-IsUsable :
      (token jti secret : Text) (now : Time) (new_jti new_secret : Text) (db : Database)
      (row : RefreshTokenRow)
      → parse_refresh token ≡ ok (jti, secret)
      → IsUsable row jti secret now db
      → any (has_jti new_jti) db.refresh_tokens ≡ false
      → execute sqlalchemy_refresh_token_repository hash issue_access ttl token now new_jti
          new_secret db
        ≡ (ok (pair_for row new_jti new_secret), renewed row now new_jti new_secret db)
  unfolding execute get_by_jti generate_refresh rotate save add issue
  execute-IsUsable token jti secret now new_jti new_secret db row parsed usable unused =
      let revoked = revoke now (to_domain row) in
      let (known, same) = find_any jti db.refresh_tokens usable.found in
      let there : any (has_jti revoked.jti) db.refresh_tokens ≡ true =
        subst (λ j. any (has_jti j) db.refresh_tokens ≡ true)
          (sym (revoke-jti now (to_domain row) ∙ same)) known in
      let unused' = any-merged new_jti revoked db.refresh_tokens ∙ unused in
      rw (parsed, execute)
        (rw usable.found
          (rw usable.matches (rw usable.active (rw there (rw unused' (rw usable.owned refl))))))

  -- A refresh token that is stored, active and presented with its secret is exchanged for a new pair,
  -- and the refresh token of that pair is exchanged in its turn, at any time before it expires; the
  -- random parts are new and well-formed, and the user is there.
  pub execute-successor :
      (token jti secret : Text) (now later : Time) (new_jti new_secret next_jti next_secret : Text)
      (db : Database) (row : RefreshTokenRow)
      → parse_refresh token ≡ ok (jti, secret)
      → IsUsable row jti secret now db
      → any (has_jti new_jti) db.refresh_tokens ≡ false
      → contains separator new_jti ≡ false
      → is_empty new_jti ≡ false
      → is_empty new_secret ≡ false
      → later < now + ttl
      → text_eq new_jti next_jti ≡ false
      → any (has_jti next_jti) db.refresh_tokens ≡ false
      → let first = pair_for row new_jti new_secret in
        let middle = renewed row now new_jti new_secret db in
        (execute sqlalchemy_refresh_token_repository hash issue_access ttl token now new_jti
            new_secret db
          ≡ (ok first, middle))
        × (last : Database) × (execute sqlalchemy_refresh_token_repository hash issue_access ttl
              first.refresh_token later next_jti next_secret middle
            ≡ (ok (pair_for row next_jti next_secret), last))
  unfolding issue is_active verify_refresh
  execute-successor token jti secret now later new_jti new_secret next_jti next_secret db row parsed
        usable unused no_stop some_jti some_secret in_time distinct unused_next =
      let revoked = revoke now (to_domain row) in
      let middle = renewed row now new_jti new_secret db in
      let successor = to_model (issue new_jti row.user_id (hash new_secret) now ttl) in
      let usable' : IsUsable successor new_jti new_secret later middle = record {
        found = rw (text_eq_self new_jti) refl;
        matches = text_eq_self (hash new_secret);
        active = lt→ltb later (now + ttl) in_time;
        owned = usable.owned;
      } in
      let fresh : any (has_jti next_jti) middle.refresh_tokens ≡ false =
        rw distinct (any-merged next_jti revoked db.refresh_tokens ∙ unused_next) in
      (
        execute-IsUsable token jti secret now new_jti new_secret db row parsed usable unused,
        renewed successor later next_jti next_secret middle,
        execute-IsUsable _ new_jti new_secret later next_jti next_secret middle successor
            (parse_refresh-generate_refresh hash new_jti new_secret no_stop some_jti some_secret)
            usable' fresh,
      )
