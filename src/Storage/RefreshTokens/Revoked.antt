-- ===== src/Storage/RefreshTokens/Revoked.antt =====
-- That a token stays revoked.
use dizzchat.Prelude.{
  ◌≡◌, refl, sym, subst, ◌∙◌, true, false, ◌||◌, not, some, List, [], ◌∷◌, arith, any, find?, ok,
  err, is_some, Bool-cases, inl, inr, ◌==◌,
}
use dizzchat.Text.{Text, text_eq, text_eq_iff, text_eq_self}
use dizzchat.Errors.{Attempt}
use dizzchat.Storage.Session.{◌>>◌, pure}
use dizzchat.Identity.RefreshToken.{RefreshToken}
use dizzchat.Storage.Rows.{UserRow, RefreshTokenRow, Database}
use dizzchat.Storage.RefreshTokens.{to_model, has_jti, add, merged, save}

pub find_any :
    (jti : Text) (rows : List RefreshTokenRow) {row : RefreshTokenRow}
    → find? (has_jti jti) rows ≡ some row
    → (any (has_jti jti) rows ≡ true) × (row.jti ≡ jti)
find_any jti [] h = absurd (cc h)
find_any jti (r ∷ rows) {row} h = elim (Bool-cases (has_jti jti r)) [
  | inl here ↦ (ground arith, ground (arith, text_eq_iff r.jti jti))
  | inr elsewhere ↦
      let rest = find_any jti rows {row = row} (ground arith) in (ground arith, rest.1)
]

-- The row that is read after a save is the token's.
pub find-merged :
    (token : RefreshToken) (rows : List RefreshTokenRow)
    → any (has_jti token.jti) rows ≡ true
    → find? (has_jti token.jti) (merged token rows) ≡ some (to_model token)
find-merged token [] h = absurd (cc h)
find-merged token (r ∷ rows) h = elim (Bool-cases (has_jti token.jti r)) [
  | inl here ↦ rw here (rw (text_eq_self token.jti) refl)
  | inr elsewhere ↦ rw elsewhere (rw elsewhere (find-merged token rows (ground arith)))
]

pub any-merged :
    (k : Text) (token : RefreshToken) (rows : List RefreshTokenRow)
    → any (has_jti k) (merged token rows) ≡ any (has_jti k) rows
any-merged k token [] = refl
any-merged k token (r ∷ rows) = elim (Bool-cases (has_jti token.jti r)) [
  | inl here ↦
      let same = (text_eq_iff r.jti token.jti).0 here in
      rw here (ground (arith, same, any-merged k token rows))
  | inr elsewhere ↦ rw elsewhere (ground (arith, any-merged k token rows))
]

other_jti :
    (k jti : Text) (rows : List RefreshTokenRow)
    → any (has_jti jti) rows ≡ true
    → any (has_jti k) rows ≡ false
    → text_eq k jti ≡ false
other_jti k jti [] h other = absurd (cc h)
other_jti k jti (r ∷ rows) h other = elim (Bool-cases (has_jti jti r)) [
  | inl here ↦ elim (Bool-cases (text_eq k jti)) [
    | inl same ↦
        let k_is : k ≡ jti = (text_eq_iff k jti).0 same in
        let found : has_jti k r ≡ true = subst (λ j. has_jti j r ≡ true) (sym k_is) here in
        ground arith
    | inr distinct ↦ distinct
  ]
  | inr elsewhere ↦ other_jti k jti rows (ground arith) (ground arith)
]

-- The token with this id is there, and revoked.
abbrev pub Used : Text → Database → Type 0
Used jti db =
    (row : RefreshTokenRow) × (find? (has_jti jti) db.refresh_tokens ≡ some row)
    × (is_some row.revoked_at ≡ true)

-- A call that, if it returns, leaves the token revoked.
abbrev pub UsedAfter {ℓ} : {A : Type ℓ} → Text → Attempt A × Database → Type 0
UsedAfter jti (ok a, db) = Used jti db
UsedAfter jti (err e, db) = Unit

-- Saving a revoked token, and adding another one.
pub save-UsedAfter :
    {A : Type 0} (a : A) (token rotated : RefreshToken) (db : Database)
    → any (has_jti token.jti) db.refresh_tokens ≡ true
    → is_some token.revoked_at ≡ true
    → UsedAfter token.jti ((save token >> (add rotated >> pure a)) db)
unfolding save add
save-UsedAfter a token rotated db there revoked =
    let rows = merged token db.refresh_tokens in
    let refused =
      any (has_jti rotated.jti) rows
      || not (any (λ (user : UserRow). user.id == rotated.user_id) db.users) in
    elim (Bool-cases refused) [
      | inl no_room ↦ rw there (rw no_room tt)
      | inr room ↦
          let known = any-merged token.jti token db.refresh_tokens ∙ there in
          let distinct = other_jti rotated.jti token.jti rows known (ground arith) in
          rw there (
            rw room
              (to_model token, rw distinct (find-merged token db.refresh_tokens there), revoked))
    ]
