-- ===== src/Storage/Users.antt =====
-- src/dizzchat/contexts/identity/infrastructure/outbound/persistence/repositories/
-- sqlalchemy_user_repository.py, over the table of users.
use dizzchat.Prelude.{
  Bool, ◌||◌, Option, ◌∷◌, ◌==◌, any, find?, ok, err, if◌then◌else◌, ◌>>=◌, traverse_option,
}
use dizzchat.Text.{Text, text_eq}
use dizzchat.Errors.{Attempt, integrity_error}
use dizzchat.Identity.Ports.{UserRepository}
use dizzchat.Identity.User.{User, email_address, password_hash}
use dizzchat.Storage.Rows.{UserRow, Database}
use dizzchat.Storage.Session.{Action, query}

abbrev pub to_model : User → UserRow
to_model user = record {
  id = user.id;
  email = user.email;
  password_hash = user.password_hash;
  created_at = user.created_at;
}

-- `_to_domain(model)`, which checks the columns as the value objects do.
unfoldable pub to_domain : (Text → Text) → UserRow → Attempt User
to_domain lower model = do
  email ← email_address lower model.email
  hashed ← password_hash model.password_hash
  ok (record {
    id = model.id;
    email = email;
    password_hash = hashed;
    created_at = model.created_at;
  })

abbrev pub has_email : Text → UserRow → Bool
has_email email row = text_eq row.email email

-- The insert: the key and the address must be new.
unfoldable pub add : User → Action Database (Unit {0})
add user db =
    if any (λ (row : UserRow). row.id == user.id || has_email user.email row) db.users
    then (err integrity_error, db)
    else (ok tt, record db { users = to_model user ∷ db.users })

unfoldable pub get_by_email : (Text → Text) → Text → Action Database (Option User)
get_by_email lower email =
    query λ db. traverse_option (to_domain lower) (find? (has_email email) db.users)

abbrev pub sqlalchemy_user_repository : (Text → Text) → UserRepository Database
sqlalchemy_user_repository lower = record { add = add; get_by_email = get_by_email lower }
