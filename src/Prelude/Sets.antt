-- ===== src/Prelude/Sets.antt =====
-- Lists of numbers as sets: what is left when several elements are discarded.
use Prim.Native.Nat.{ℕ}
use mathlib.Core.Path.{◌≡◌, refl, ◌∙◌, ap}
use mathlib.Core.Bool.{Bool, true, ◌&&◌, not}
use mathlib.Core.List.{List, [], ◌∷◌}
use mathlib.Core.Logic.{inl, inr}
use native.Mathlib.Omega.{arith}
use dizzchat.Prelude.Tests.{◌==◌, ==_iff, if◌then◌else◌, Bool-cases}
use dizzchat.Prelude.Lists.{filter, contains, without_element}

-- Discarding the elements of a list, one after the other.
abbrev pub without_all : List ℕ → List ℕ → List ℕ
without_all [] xs = xs
without_all (d ∷ dead) xs = without_all dead (without_element d xs)

pub contains-filter :
    (y : ℕ) (p : ℕ → Bool) (xs : List ℕ) → contains y (filter p xs) ≡ (contains y xs && p y)
contains-filter y p [] = refl
contains-filter y p (x ∷ xs) = elim (Bool-cases (y == x)) [
  | inl same ↦
      let e = (==_iff y x).0 same in let t = ap p e in ground (arith, contains-filter y p xs)
  | inr other ↦ ground (arith, contains-filter y p xs)
]

without_all-nil : (dead : List ℕ) → without_all dead [] ≡ []
without_all-nil [] = refl
without_all-nil (d ∷ dead) = without_all-nil dead

without_all-cons :
    (dead : List ℕ) (x : ℕ) (xs : List ℕ)
    → without_all dead (x ∷ xs)
      ≡ (if contains x dead then without_all dead xs else x ∷ without_all dead xs)
without_all-cons [] x xs = refl
without_all-cons (d ∷ dead) x xs = ground (arith, without_all-cons dead x (without_element d xs))

-- A list whose other elements are all discarded is the list of those that pass the test.
left_over :
    (p : ℕ → Bool) (dead xs : List ℕ)
    → ((y : ℕ) → contains y xs ≡ true → contains y dead ≡ not (p y))
    → without_all dead xs ≡ filter p xs
left_over p dead [] h = without_all-nil dead
left_over p dead (x ∷ xs) h =
    let here : contains x dead ≡ not (p x) = h x (ground arith) in
    let rest = left_over p dead xs (λ y e. h y (ground arith)) in
    without_all-cons dead x xs ∙ ground arith

pub without_all-filter :
    (p : ℕ → Bool) (xs : List ℕ) → without_all (filter (λ x. not (p x)) xs) xs ≡ filter p xs
without_all-filter p xs =
    left_over p (filter (λ x. not (p x)) xs) xs
      (λ y e. contains-filter y (λ x. not (p x)) xs ∙ ground arith)
