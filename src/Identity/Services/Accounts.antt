-- ===== src/Identity/Services/Accounts.antt =====
-- That an account that was registered can be used.
use dizzchat.Storage.Users.{sqlalchemy_user_repository}
use dizzchat.Storage.RefreshTokens.{sqlalchemy_refresh_token_repository}
use dizzchat.Prelude.{
  ℕ, ◌≡◌, refl, sym, ap, subst, ◌∙◌, Bool, true, false, ◌||◌, some, ◌∷◌, arith, any, find?, ok, err,
  if◌then◌else◌, is_some, is_empty, Bool-cases, Result-cases, inl, inr, ◌==◌, traverse_option,
}
use dizzchat.Text.{Text, strip, text_eq_self}
use dizzchat.Errors.{Attempt, user_error, invalid_credentials, email_already_registered}
use dizzchat.Messaging.Conversation.{Uuid, Time}
use dizzchat.Identity.User.{User, email_address, password_hash, register}
use dizzchat.Identity.RefreshToken.{issue}
use dizzchat.Identity.TokenService.{generate_refresh}
use dizzchat.Identity.Services.{register_user, authenticate_user}
use dizzchat.Storage.Rows.{UserRow, Database}
use dizzchat.Storage.Users
use dizzchat.Storage.RefreshTokens.{has_jti}
use dizzchat.Storage.RefreshTokens

-- `str.lower` on a stripped text: a second time changes nothing, and it makes no white space.
pub record IsLower (lower : Text → Text) : Type 0 where
  pub lower_lower : (text : Text) → lower (lower text) ≡ lower text
  pub strip_lower : (text : Text) → strip (lower (strip text)) ≡ lower (strip text)

-- An address that was accepted is accepted again, as it is, when it is read from its column.
pub email_address-email_address :
    (lower : Text → Text) (value : Text) {address : Text}
    → IsLower lower
    → email_address lower value ≡ ok address
    → email_address lower address ≡ ok address
unfolding email_address
email_address-email_address lower value {address} laws h =
    let normalized = lower (strip value) in
    let is : address ≡ normalized = ground arith in
    let same : lower (strip normalized) ≡ normalized =
      ap lower (laws.strip_lower value) ∙ laws.lower_lower (strip value) in
    subst (λ a. email_address lower a ≡ ok a) (sym is) (rw same (ground arith))

-- What a registration that returns has done.
abbrev pub Registers : (Text → Text) → Text → Text → Database → Attempt User × Database → Type 0
Registers lower email hashed db (ok user, db') =
    (email_address lower email ≡ ok user.email)
    × (user.password_hash ≡ hashed)
    × (is_empty hashed ≡ false)
    × (db' ≡ record db { users = Users.to_model user ∷ db.users })
Registers lower email hashed db (err e, db') = Unit

module _ (lower : Text → Text) (hash_password : ℕ → Text → Text) (verify : Text → Text → Bool) where
  register_user-Registers :
      (email password : Text) (salt : ℕ) (fresh : Uuid) (now : Time) (db : Database)
      → Registers lower email (hash_password salt password) db (
          register_user
            (sqlalchemy_user_repository lower)
            lower
            hash_password
            verify
            email
            password
            salt
            fresh
            now
            db)
  unfolding register_user Users.get_by_email register password_hash Users.add
  register_user-Registers email password salt fresh now db =
      let hashed = hash_password salt password in
      elim (Result-cases (email_address lower email)) [
        | inl (e, bad) ↦ rw (bad, register_user) tt
        | inr (address, good) ↦
            let user : User = record {
              id = fresh;
              email = address;
              password_hash = hashed;
              created_at = now;
            } in
            let taken =
              any (λ (row : UserRow). row.id == fresh || Users.has_email address row) db.users in
            elim (Result-cases (
              traverse_option (Users.to_domain lower) (find? (Users.has_email address) db.users))) [
                | inl (e, unread) ↦ rw (good, register_user) (rw unread tt)
                | inr (existing, read) ↦ elim (Bool-cases (is_some existing)) [
                  | inl there ↦ rw (good, register_user) (rw read (rw there tt))
                  | inr absent ↦ elim (Bool-cases (is_empty hashed)) [
                    | inl empty ↦ rw (good, register_user) (rw read (rw absent (rw empty tt)))
                    | inr some_hash ↦ elim (Bool-cases taken) [
                      | inl no_room ↦
                          rw (good, register_user)
                            (rw read (rw absent (rw some_hash (rw no_room tt))))
                      | inr room ↦
                          rw (good, register_user)
                            (rw read
                              (rw absent (rw some_hash (rw room (good, refl, some_hash, refl)))))
                    ]
                  ]
                ]
              ]
      ]

  -- The read of an account that was just registered, under its address.
  registered_read :
      (email hashed : Text) (user : User) (db db' : Database)
      → IsLower lower
      → Registers lower email hashed db (ok user, db')
      → traverse_option (Users.to_domain lower) (find? (Users.has_email user.email) db'.users)
        ≡ ok (some user)
  unfolding Users.to_domain password_hash
  registered_read email hashed user db db' laws (good, is, nonempty, wrote) =
      let again = email_address-email_address lower email laws good in
      let kept : is_empty user.password_hash ≡ false =
        subst (λ h. is_empty h ≡ false) (sym is) nonempty in
      subst
        (λ (d : Database).
          traverse_option (Users.to_domain lower) (find? (Users.has_email user.email) d.users)
          ≡ ok (some user))
        (sym wrote) (rw (text_eq_self user.email) (rw again (rw kept refl)))

  -- Where lowering a text a second time changes nothing and makes no white space: after a
  -- registration that returned, a registration under any spelling of the same address is refused
  -- with the address, whatever its password, and writes nothing.
  pub register_user-twice :
      (email password other another : Text) (salt new_salt : ℕ) (fresh new_fresh : Uuid)
      (now later : Time) (db db' : Database) (user : User)
      → IsLower lower
      → register_user
          (sqlalchemy_user_repository lower)
          lower
          hash_password
          verify
          email
          password
          salt
          fresh
          now
          db
        ≡ (ok user, db')
      → email_address lower other ≡ ok user.email
      → register_user
          (sqlalchemy_user_repository lower)
          lower
          hash_password
          verify
          other
          another
          new_salt
          new_fresh
          later
          db'
        ≡ (err (user_error (email_already_registered user.email)), db')
  unfolding register_user Users.get_by_email
  register_user-twice email password other another salt new_salt fresh new_fresh now later db db'
        user laws returned spelled =
      let done =
        subst (Registers lower email (hash_password salt password) db) returned
          (register_user-Registers email password salt fresh now db) in
      rw (spelled, register_user)
        (rw (registered_read email (hash_password salt password) user db db' laws done) refl)

  module _ (hash : Text → Text) (issue_access : Uuid → Text) (ttl : Time) where
    -- Where lowering a text a second time changes nothing and makes no white space: after a
    -- registration that returned, logging in with any spelling of the same address and a password
    -- that the hasher matches with the stored hash gives a pair of tokens for this user, and stores
    -- the digest of the refresh token, if the new token's id is not taken; with a password that it
    -- does not match, the login is refused and writes nothing.
    pub authenticate_user-register_user :
        (email password candidate other : Text) (salt : ℕ) (fresh : Uuid) (now later : Time)
        (jti secret : Text) (db db' : Database) (user : User)
        → IsLower lower
        → register_user
            (sqlalchemy_user_repository lower)
            lower
            hash_password
            verify
            email
            password
            salt
            fresh
            now
            db
          ≡ (ok user, db')
        → email_address lower other ≡ ok user.email
        → any (has_jti jti) db'.refresh_tokens ≡ false
        → authenticate_user
            (sqlalchemy_user_repository lower)
            lower
            hash_password
            verify
            sqlalchemy_refresh_token_repository
            hash
            issue_access
            ttl
            other
            candidate
            later
            jti
            secret
            db'
          ≡ (if verify candidate (hash_password salt password)
              then (
                ok record {
                  access_token = issue_access user.id;
                  refresh_token = (generate_refresh hash jti secret).token;
                },
                record db' {
                  refresh_tokens =
                      RefreshTokens.to_model (issue jti user.id (hash secret) later ttl)
                      ∷ db'.refresh_tokens;
                },
              )
              else (err (user_error invalid_credentials), db'))
    unfolding authenticate_user Users.get_by_email RefreshTokens.add generate_refresh issue
    authenticate_user-register_user email password candidate other salt fresh now later jti secret
          db db' user laws returned spelled unused =
        let hashed = hash_password salt password in
        let done =
          subst (Registers lower email hashed db) returned
            (register_user-Registers email password salt fresh now db) in
        let read = registered_read email hashed user db db' laws done in
        let (good, is, nonempty, wrote) = done in
        let known : any (λ (row : UserRow). row.id == user.id) db'.users ≡ true =
          subst (λ (d : Database). any (λ (row : UserRow). row.id == user.id) d.users ≡ true)
            (sym wrote) (ground arith) in
        elim (Bool-cases (verify candidate hashed)) [
          | inl matches ↦
              let matches' = ap (verify candidate) is ∙ matches in
              rw (spelled, authenticate_user)
                (rw read (rw matches' (rw matches (rw unused (rw known refl)))))
          | inr wrong ↦
              let wrong' = ap (verify candidate) is ∙ wrong in
              rw (spelled, authenticate_user) (rw read (rw wrong' (rw wrong refl)))
        ]
