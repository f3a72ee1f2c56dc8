-- ===== src/Tests/Accounts.antt =====
-- The theorems on accounts and tokens at concrete inputs; the digest of a text is its reverse.
use dizzchat.Storage.Users.{sqlalchemy_user_repository}
use dizzchat.Storage.RefreshTokens.{sqlalchemy_refresh_token_repository}
use dizzchat.Prelude.{ℕ, ◌≡◌, refl, Bool, false, any, if◌then◌else◌, some, none, [], ◌∷◌, ok, err}
use mathlib.Core.List.{reverse}
use dizzchat.Text.{Text, codes, partition, text_eq, strip}
use dizzchat.Text.Strip.{strip-strip}
use dizzchat.Identity.User.{User, email_address, email_pattern, password_hash, register}
use dizzchat.Identity.Services.{register_user, authenticate_user}
use dizzchat.Identity.Services.Accounts.{IsLower, authenticate_user-register_user}
use dizzchat.Storage.Users
use dizzchat.Storage.Users.{to_model, get_by_email}
use dizzchat.Storage.RefreshTokens
use dizzchat.Errors.{refresh_token_error, user_error, invalid_credentials}
use dizzchat.Identity.RefreshToken.{rotate, is_active, revoke, issue}
use dizzchat.Identity.TokenService.{generate_refresh, parse_refresh, verify_refresh}
use dizzchat.Identity.RefreshAccessToken.{TokenPair, execute}
use dizzchat.Identity.RefreshAccessToken.Rotation.{execute-once}
use dizzchat.Storage.Rows.{RefreshTokenRow, Database, empty_database}
use dizzchat.Identity.RefreshAccessToken.Successor.{pair_for, renewed, IsUsable, execute-successor}
use native.Mathlib.Omega.{arith}
use dizzchat.Storage.RefreshTokens.{add, get_by_jti, save, has_jti}

abbrev accounts : Database
accounts = record empty_database {
  users =
      record { id = 1; email = codes "a@x.io"; password_hash = codes "#"; created_at = 10 } ∷ [];
  refresh_tokens =
      record {
        jti = codes "j";
        user_id = 1;
        token_hash = codes "ts";
        expires_at = 100;
        revoked_at = none;
      }
      ∷ [];
}

abbrev rotated : Database
rotated = record accounts {
  refresh_tokens =
      record {
        jti = codes "k";
        user_id = 1;
        token_hash = codes "vu";
        expires_at = 80;
        revoked_at = none;
      }
      ∷ record {
        jti = codes "j";
        user_id = 1;
        token_hash = codes "ts";
        expires_at = 100;
        revoked_at = some 50;
      }
      ∷ [];
}

abbrev pair : TokenPair
pair = record { access_token = codes "access"; refresh_token = codes "k.uv" }

first_rotation :
    execute sqlalchemy_refresh_token_repository reverse
      (λ _. codes "access")
      30
      (codes "j.st")
      50
      (codes "k")
      (codes "uv")
      accounts
    ≡ (ok pair, rotated)
unfolding execute rotate is_active revoke issue generate_refresh parse_refresh verify_refresh
    partition text_eq add get_by_jti save
first_rotation = refl

execute-once_example :
    execute sqlalchemy_refresh_token_repository reverse
      (λ _. codes "access")
      30
      (codes "j.st")
      60
      (codes "l")
      (codes "wx")
      rotated
    ≡ (err refresh_token_error, rotated)
execute-once_example =
    execute-once reverse (λ _. codes "access") 30 (codes "j.st") 50 60 (codes "k") (codes "uv")
      (codes "l") (codes "wx") accounts rotated pair first_rotation

-- Texts in lower case, and a hasher that puts the salt in front of the password.
abbrev lower : Text → Text
lower text = text

abbrev hash_password : ℕ → Text → Text
hash_password salt password = salt ∷ password

abbrev verify : Text → Text → Bool
verify candidate [] = false
verify candidate (salt ∷ password) = text_eq password candidate

lower-IsLower : IsLower lower
lower-IsLower = record { lower_lower = λ text. refl; strip_lower = strip-strip }

abbrev ann : User
ann = record { id = 5; email = codes "ann@x.io"; password_hash = 7 ∷ codes "pw"; created_at = 20 }

abbrev with_ann : Database
with_ann = record accounts { users = to_model ann ∷ accounts.users }

ann_registers :
    register_user
      (sqlalchemy_user_repository lower)
      lower
      hash_password
      verify
      (codes " ann@x.io ")
      (codes "pw")
      7
      5
      20
      accounts
    ≡ (ok ann, with_ann)
unfolding register_user register get_by_email Users.add email_address email_pattern password_hash
    strip text_eq partition
ann_registers = refl

ann_spelled : email_address lower (codes "ann@x.io ") ≡ ok ann.email
unfolding email_address email_pattern strip partition
ann_spelled = refl

unused_jti : any (has_jti (codes "k")) with_ann.refresh_tokens ≡ false
unfolding text_eq
unused_jti = refl

authenticate_user-register_user_example :
    authenticate_user
      (sqlalchemy_user_repository lower)
      lower
      hash_password
      verify
      sqlalchemy_refresh_token_repository
      reverse
      (λ _. codes "access")
      30
      (codes "ann@x.io ")
      (codes "pw")
      40
      (codes "k")
      (codes "uv")
      with_ann
    ≡ (if verify (codes "pw") (7 ∷ codes "pw")
        then (
          ok record {
            access_token = codes "access";
            refresh_token = (generate_refresh reverse (codes "k") (codes "uv")).token;
          },
          record with_ann {
            refresh_tokens =
                RefreshTokens.to_model (issue (codes "k") 5 (codes "vu") 40 30)
                ∷ with_ann.refresh_tokens;
          },
        )
        else (err (user_error invalid_credentials), with_ann))
authenticate_user-register_user_example =
    authenticate_user-register_user lower hash_password verify reverse (λ _. codes "access") 30
      (codes " ann@x.io ") (codes "pw") (codes "pw") (codes "ann@x.io ") 7 5 20 40 (codes "k")
      (codes "uv") accounts with_ann ann lower-IsLower ann_registers ann_spelled unused_jti

abbrev stored_row : RefreshTokenRow
stored_row = record {
  jti = codes "j";
  user_id = 1;
  token_hash = codes "ts";
  expires_at = 100;
  revoked_at = none;
}

stored_row-IsUsable :
    IsUsable reverse (λ _. codes "access") 30 stored_row (codes "j") (codes "st") 50 accounts
unfolding text_eq verify_refresh is_active
stored_row-IsUsable = record { found = refl; matches = refl; active = refl; owned = refl }

presented : parse_refresh (codes "j.st") ≡ ok (codes "j", codes "st")
unfolding parse_refresh partition
presented = refl

unused_k : any (has_jti (codes "k")) accounts.refresh_tokens ≡ false
unfolding text_eq
unused_k = refl

unused_l : any (has_jti (codes "l")) accounts.refresh_tokens ≡ false
unfolding text_eq
unused_l = refl

k_is_not_l : text_eq (codes "k") (codes "l") ≡ false
unfolding text_eq
k_is_not_l = refl

execute-successor_example :
    let first = pair_for reverse (λ _. codes "access") 30 stored_row (codes "k") (codes "uv") in
    let middle =
      renewed reverse (λ _. codes "access") 30 stored_row 50 (codes "k") (codes "uv") accounts in
    (execute sqlalchemy_refresh_token_repository reverse
        (λ _. codes "access")
        30
        (codes "j.st")
        50
        (codes "k")
        (codes "uv")
        accounts
      ≡ (ok first, middle))
    × (last : Database) × (execute sqlalchemy_refresh_token_repository reverse
          (λ _. codes "access")
          30
          first.refresh_token
          60
          (codes "l")
          (codes "wx")
          middle
        ≡ (
          ok (pair_for reverse (λ _. codes "access") 30 stored_row (codes "l") (codes "wx")),
          last,
        ))
execute-successor_example =
    execute-successor reverse (λ _. codes "access") 30 (codes "j.st") (codes "j") (codes "st") 50 60
      (codes "k") (codes "uv") (codes "l") (codes "wx") accounts stored_row presented
      stored_row-IsUsable unused_k refl refl refl (omega arith) k_is_not_l unused_l
