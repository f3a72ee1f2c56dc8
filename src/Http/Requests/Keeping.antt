-- ===== src/Http/Requests/Keeping.antt =====
-- That the calls behind the requests keep the tables of conversations and participants consistent.
use dizzchat.Storage.Users.{sqlalchemy_user_repository}
use dizzchat.Storage.RefreshTokens.{sqlalchemy_refresh_token_repository}
use dizzchat.Prelude.{
  guard, require, is_some, ℕ, ◌==◌, not, find?, traverse_option, ◌≡◌, refl, subst, ap, Bool, ◌||◌,
  any, Bool-cases, Result-cases, inl, inr,
}
use mathlib.Core.Path.{fun_ext}
use dizzchat.Text.{Text}
use dizzchat.Errors.{user_error, email_already_registered, invalid_credentials, refresh_token_error}
use dizzchat.Messaging.Conversation.{Uuid, Time}
use dizzchat.Messaging.Services.Kept.{Keeps}
use dizzchat.Storage.Rows.{Database, UserRow}
use dizzchat.Storage.Session.{Action, ◌>>=◌, lift, query, after}
use dizzchat.Storage.Users
use dizzchat.Storage.RefreshTokens
use dizzchat.Storage.RefreshTokens.{has_jti}
use dizzchat.Storage.Conversations.Consistency.{IsConsistent}
use dizzchat.Identity.User.{User, email_address, register}
use dizzchat.Identity.RefreshToken
use dizzchat.Identity.TokenService.{generate_refresh, parse_refresh, verify_refresh}
use dizzchat.Identity.Services.{
  in_place_of_invalid_email, register_user, authenticate_user, find_id_by_email,
  identity_user_directory,
}
use dizzchat.Identity.RefreshAccessToken

abbrev Token : Type 0
Token = RefreshToken.RefreshToken

-- A call that keeps consistent tables consistent, whichever way it ends.
abbrev pub Keeping : {A : Type 0} → Action Database A → Type 0
Keeping m = (db : Database) → IsConsistent db → Keeps (m db)

pub Keeping-bind :
    {A B : Type 0} (m : Action Database A) (k : A → Action Database B)
    → Keeping m
    → ((a : A) → Keeping (k a))
    → Keeping (m >>= k)
Keeping-bind m k first rest db h =
    after Keeps m k db (λ a db' e. rest a db' (subst Keeps e (first db h)))
      (λ e db' raised. subst Keeps raised (first db h))

-- Tables with the same conversations and participants.
pub other_tables :
    (db db' : Database)
    → db'.conversations ≡ db.conversations
    → db'.participants ≡ db.participants
    → IsConsistent db
    → IsConsistent db'
other_tables db db' conversations participants h = record {
  ids_unique = rw conversations h.ids_unique;
  members_unique = rw participants h.members_unique;
  titles = rw conversations h.titles;
  linked = rw (conversations, participants) h.linked;
  owners = rw (conversations, participants) h.owners;
}

add_user-Keeping : (user : User) → Keeping (Users.add user)
unfolding Users.add
add_user-Keeping user db h =
    elim (Bool-cases
      (any (λ (row : UserRow). row.id == user.id || Users.has_email user.email row) db.users)) [
        | inl taken ↦ rw taken h
        | inr room ↦ rw room (other_tables db _ refl refl h)
      ]

add_token-Keeping : (token : Token) → Keeping (RefreshTokens.add token)
unfolding RefreshTokens.add
add_token-Keeping token db h =
    elim (Bool-cases (
      any (has_jti token.jti) db.refresh_tokens
      || not (any (λ (user : UserRow). user.id == token.user_id) db.users))) [
        | inl taken ↦ rw taken h
        | inr room ↦ rw room (other_tables db _ refl refl h)
      ]

save_token-Keeping : (token : Token) → Keeping (RefreshTokens.save token)
unfolding RefreshTokens.save
save_token-Keeping token db h = elim (Bool-cases (any (has_jti token.jti) db.refresh_tokens)) [
  | inl there ↦ rw there (other_tables db _ refl refl h)
  | inr missing ↦ rw missing (add_token-Keeping token db h)
]

user-Keeping : (lower : Text → Text) (address : Text) → Keeping (Users.get_by_email lower address)
unfolding Users.get_by_email
user-Keeping lower address db h = h

found-Keeping : (jti : Text) → Keeping (RefreshTokens.get_by_jti jti)
unfolding RefreshTokens.get_by_jti
found-Keeping jti db h = h

module _ (lower : Text → Text) (hash_password : ℕ → Text → Text) (verify : Text → Text → Bool) where
  pub register_user-Keeping :
      (email password : Text) (salt : ℕ) (fresh : Uuid) (now : Time)
      → Keeping (
          register_user
            (sqlalchemy_user_repository lower)
            lower
            hash_password
            verify
            email
            password
            salt
            fresh
            now)
  unfolding register_user
  register_user-Keeping email password salt fresh now =
      Keeping-bind (lift (email_address lower email)) _ (λ db h. h)
        λ address.
          Keeping-bind (Users.get_by_email lower address) _ (user-Keeping lower address) λ existing.
            Keeping-bind
              (lift
                (guard (not (is_some existing)) (user_error (email_already_registered address))))
              _ (λ db h. h)
              λ _.
                Keeping-bind (lift (register hash_password salt fresh address password now)) _
                  (λ db h. h)
                  λ user. Keeping-bind (Users.add user) _ (add_user-Keeping user) (λ _ db h. h)

  pub authenticate_user-Keeping :
      (hash : Text → Text) (issue_access : Uuid → Text) (ttl : Time) (email password : Text)
      (now : Time) (jti secret : Text)
      → Keeping (
          authenticate_user
            (sqlalchemy_user_repository lower)
            lower
            hash_password
            verify
            sqlalchemy_refresh_token_repository
            hash
            issue_access
            ttl
            email
            password
            now
            jti
            secret)
  unfolding authenticate_user
  authenticate_user-Keeping hash issue_access ttl email password now jti secret =
      Keeping-bind
        (lift
          (in_place_of_invalid_email (email_address lower email) (user_error invalid_credentials)))
        _ (λ db h. h)
        λ address.
          Keeping-bind (Users.get_by_email lower address) _ (user-Keeping lower address) λ found.
            Keeping-bind (lift (require found (user_error invalid_credentials))) _ (λ db h. h)
              λ user.
                Keeping-bind
                  (lift
                    (guard (verify password user.password_hash) (user_error invalid_credentials)))
                  _ (λ db h. h)
                  λ _.
                    let generated = generate_refresh hash jti secret in
                    let token =
                      RefreshToken.issue generated.jti user.id generated.token_hash now ttl in
                    Keeping-bind (RefreshTokens.add token) _ (add_token-Keeping token) (λ _ db h. h)

pub refresh-Keeping :
    (hash : Text → Text) (issue_access : Uuid → Text) (ttl : Time) (token : Text) (now : Time)
    (jti secret : Text)
    → Keeping (
        RefreshAccessToken.execute sqlalchemy_refresh_token_repository hash issue_access ttl token
          now jti secret)
unfolding RefreshAccessToken.execute
refresh-Keeping hash issue_access ttl token now new_jti new_secret =
    Keeping-bind (lift (parse_refresh token)) _ (λ db h. h)
      λ (parsed : Text × Text).
        Keeping-bind (RefreshTokens.get_by_jti parsed.0) _ (found-Keeping parsed.0) λ found.
          Keeping-bind (lift (require found refresh_token_error)) _ (λ db h. h)
            λ stored.
              Keeping-bind
                (lift (guard (verify_refresh hash parsed.1 stored.token_hash) refresh_token_error))
                _ (λ db h. h)
                λ _.
                  let generated = generate_refresh hash new_jti new_secret in
                  Keeping-bind
                    (lift (RefreshToken.rotate now generated.jti generated.token_hash ttl stored)) _
                    (λ db h. h)
                    λ (pair : Token × Token).
                      Keeping-bind (RefreshTokens.save pair.0) _ (save_token-Keeping pair.0) λ _.
                        Keeping-bind (RefreshTokens.add pair.1) _ (add_token-Keeping pair.1)
                          (λ _ db h. h)

-- The directory of users only reads.
pub directory_reads :
    (lower : Text → Text)
    → identity_user_directory (sqlalchemy_user_repository lower) lower ≡ record {
      find_id_by_email = λ email.
          query (λ db. (find_id_by_email (sqlalchemy_user_repository lower) lower email db).0);
    }
unfolding find_id_by_email Users.get_by_email
directory_reads lower =
    ap (λ f. record { find_id_by_email = f }) (fun_ext λ email. fun_ext λ db. go email db)
  where
    go :
        (email : Text) (db : Database)
        → find_id_by_email (sqlalchemy_user_repository lower) lower email db
          ≡ ((find_id_by_email (sqlalchemy_user_repository lower) lower email db).0, db)
    go email db = elim (Result-cases (email_address lower email)) [
      | inl (e, bad) ↦ rw (bad, find_id_by_email) refl
      | inr (address, good) ↦
          elim (Result-cases
            (traverse_option (Users.to_domain lower) (find? (Users.has_email address) db.users))) [
              | inl (e, bad) ↦ rw (good, find_id_by_email) (rw bad refl)
              | inr (found, read) ↦ rw (good, find_id_by_email) (rw read refl)
            ]
    ]
