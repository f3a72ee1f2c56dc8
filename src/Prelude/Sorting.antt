-- ===== src/Prelude/Sorting.antt =====
-- `ORDER BY` a number: insertion sorts, and what they do to lists that are in order already.
use Prim.Native.Nat.{ℕ}
use mathlib.Core.Path.{◌≡◌, refl, ap}
use mathlib.Core.List.{List, [], ◌∷◌, ◌++◌, map, reverse, reverse-cons}
use mathlib.Core.Bool.{true}
use mathlib.Core.Logic.{inl, inr}
use native.Mathlib.Omega.{arith}
use dizzchat.Prelude.Tests.{leb, ltb, if◌then◌else◌, Bool-cases}
use dizzchat.Prelude.Paging.{Ordered}
use dizzchat.Prelude.Lists.{All, All-reverse}

module _ {ℓ} {A : Type ℓ} (key : A → ℕ) where
  pub insert_asc : A → List A → List A
  insert_asc x [] = x ∷ []
  insert_asc x (y ∷ ys) = if leb (key x) (key y) then x ∷ y ∷ ys else y ∷ insert_asc x ys

  unfoldable pub sort_asc : List A → List A
  unfolding insert_asc
  sort_asc [] = []
  sort_asc (x ∷ xs) = insert_asc x (sort_asc xs)

  pub insert_desc : A → List A → List A
  insert_desc x [] = x ∷ []
  insert_desc x (y ∷ ys) = if leb (key y) (key x) then x ∷ y ∷ ys else y ∷ insert_desc x ys

  unfoldable pub sort_desc : List A → List A
  unfolding insert_desc
  sort_desc [] = []
  sort_desc (x ∷ xs) = insert_desc x (sort_desc xs)

  abbrev pub Descending : List A → Type ℓ
  Descending = Ordered (λ x y. ltb (key y) (key x))

  pub insert_desc-above :
      (x : A) (ys : List A) → All (λ y. ltb (key y) (key x) ≡ true) ys → insert_desc x ys ≡ x ∷ ys
  unfolding insert_desc
  insert_desc-above x [] h = refl
  insert_desc-above x (y ∷ ys) h = ground arith

  -- A descending list is sorted already.
  pub sort_desc-Descending : (xs : List A) → Descending xs → sort_desc xs ≡ xs
  unfolding sort_desc
  sort_desc-Descending [] h = refl
  sort_desc-Descending (x ∷ xs) h = rw (sort_desc-Descending xs h.1) (insert_desc-above x xs h.0)

  pub insert_asc-above :
      (x : A) (ys : List A)
      → All (λ y. ltb (key y) (key x) ≡ true) ys
      → insert_asc x ys ≡ ys ++ x ∷ []
  unfolding insert_asc
  insert_asc-above x [] h = refl
  insert_asc-above x (y ∷ ys) h = ground (arith, insert_asc-above x ys h.1)

  -- Sorting a descending list the other way turns it round.
  pub sort_asc-Descending : (xs : List A) → Descending xs → sort_asc xs ≡ reverse xs
  unfolding sort_asc
  sort_asc-Descending [] h = refl
  sort_asc-Descending (x ∷ xs) h =
      rw (sort_asc-Descending xs h.1, reverse-cons)
        (insert_asc-above x (reverse xs) (All-reverse (λ y. ltb (key y) (key x) ≡ true) xs h.0))

module _ {ℓ κ} {A : Type ℓ} {B : Type κ} (f : A → B) (key : B → ℕ) where
  insert_asc-map :
      (x : A) (ys : List A)
      → insert_asc key (f x) (map f ys) ≡ map f (insert_asc (λ y. key (f y)) x ys)
  unfolding insert_asc
  insert_asc-map x [] = refl
  insert_asc-map x (y ∷ ys) = elim (Bool-cases (leb (key (f x)) (key (f y)))) [
    | inl e ↦ rw e
    | inr e ↦ rw e (ap (f y ∷◌) (insert_asc-map x ys))
  ]

  pub sort_asc-map : (xs : List A) → sort_asc key (map f xs) ≡ map f (sort_asc (λ y. key (f y)) xs)
  unfolding sort_asc
  sort_asc-map [] = refl
  sort_asc-map (x ∷ xs) = rw (sort_asc-map xs) (insert_asc-map x (sort_asc (λ y. key (f y)) xs))

  insert_desc-map :
      (x : A) (ys : List A)
      → insert_desc key (f x) (map f ys) ≡ map f (insert_desc (λ y. key (f y)) x ys)
  unfolding insert_desc
  insert_desc-map x [] = refl
  insert_desc-map x (y ∷ ys) = elim (Bool-cases (leb (key (f y)) (key (f x)))) [
    | inl e ↦ rw e
    | inr e ↦ rw e (ap (f y ∷◌) (insert_desc-map x ys))
  ]

  pub sort_desc-map :
      (xs : List A) → sort_desc key (map f xs) ≡ map f (sort_desc (λ y. key (f y)) xs)
  unfolding sort_desc
  sort_desc-map [] = refl
  sort_desc-map (x ∷ xs) = rw (sort_desc-map xs) (insert_desc-map x (sort_desc (λ y. key (f y)) xs))
