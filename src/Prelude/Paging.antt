-- ===== src/Prelude/Paging.antt =====
-- Reading an ordered list page by page: what follows the last element of a page is the rest.
use Prim.Native.Nat.{ℕ, zero, suc, ◌<◌}
use mathlib.Core.Path.{◌≡◌, refl, ap, subst}
use mathlib.Core.Bool.{Bool, true, false}
use mathlib.Core.Logic.{inl, inr}
use mathlib.Core.Option.{Option, none, some}
use mathlib.Core.List.{List, [], ◌∷◌, ◌++◌, reverse, reverse-cons, append-nil}
use native.Mathlib.Omega.{arith}
use dizzchat.Prelude.Tests.{Bool-cases}
use dizzchat.Prelude.Lists.{
  All, All-filter, All-append, All-reverse, filter, length, take, drop, get_last?,
}

module _ {ℓ} {A : Type ℓ} where
  pub All-take {κ} : (P : A → Type κ) (n : ℕ) (xs : List A) → All P xs → All P (take n xs)
  All-take P zero xs h = tt
  All-take P (suc n) [] h = h
  All-take P (suc n) (x ∷ xs) h = (h.0, All-take P n xs h.1)

  pub All-get_last? {κ} :
      (P : A → Type κ) (xs : List A) (m : A) → All P xs → get_last? xs ≡ some m → P m
  All-get_last? P [] m h e = cc
  All-get_last? P (x ∷ []) m h e = subst P (cc) h.0
  All-get_last? P (x ∷ y ∷ ys) m h e = All-get_last? P (y ∷ ys) m h.1 e

  pub filter-All : (p : A → Bool) (xs : List A) → All (λ x. p x ≡ true) xs → filter p xs ≡ xs
  filter-All p [] h = refl
  filter-All p (x ∷ xs) h = rw h.0 (ap (x ∷◌) (filter-All p xs h.1))

  pub filter-append :
      (p : A → Bool) (xs ys : List A) → filter p (xs ++ ys) ≡ filter p xs ++ filter p ys
  filter-append p [] ys = refl
  filter-append p (x ∷ xs) ys = elim (Bool-cases (p x)) [
    | inl e ↦ rw e (ap (x ∷◌) (filter-append p xs ys))
    | inr e ↦ rw e (filter-append p xs ys)
  ]

  pub filter-reverse : (p : A → Bool) (xs : List A) → filter p (reverse xs) ≡ reverse (filter p xs)
  filter-reverse p [] = refl
  filter-reverse p (x ∷ xs) = elim (Bool-cases (p x)) [
    | inl e ↦ rw (e, reverse-cons, reverse-cons, filter-append, filter-reverse p xs) (rw e)
    | inr e ↦ rw (e, reverse-cons, filter-append, filter-reverse p xs) (rw e (append-nil _))
  ]

  pub All-filter_self : (p : A → Bool) (xs : List A) → All (λ x. p x ≡ true) (filter p xs)
  All-filter_self p [] = tt
  All-filter_self p (x ∷ xs) = elim (Bool-cases (p x)) [
    | inl e ↦ rw e (e, All-filter_self p xs)
    | inr e ↦ rw e (All-filter_self p xs)
  ]

  -- A filter absorbs a weaker one.
  pub filter-filter_absorb :
      (p q : A → Bool) (xs : List A)
      → ((x : A) → p x ≡ true → q x ≡ true)
      → filter p (filter q xs) ≡ filter p xs
  filter-filter_absorb p q [] h = refl
  filter-filter_absorb p q (x ∷ xs) h = ground (arith, h x, filter-filter_absorb p q xs h)

  -- The elements behind a cursor, all of them where there is none.
  abbrev pub beyond : (ℕ → A → Bool) → Option ℕ → List A → List A
  beyond behind none xs = xs
  beyond behind (some a) xs = filter (behind a) xs

  pub get_last?-none : (xs : List A) → get_last? xs ≡ none → xs ≡ []
  get_last?-none [] e = refl
  get_last?-none (x ∷ []) e = cc
  get_last?-none (x ∷ y ∷ ys) e = absurd (nonempty (get_last?-none (y ∷ ys) e))
    where
      nonempty : ¬ (y ∷ ys ≡ [])
      nonempty h = cc

  -- A page that is not full is the whole rest.
  pub take-short : (n : ℕ) (xs : List A) → length (take n xs) < n → take n xs ≡ xs
  take-short zero xs h = elim h [ ]
  take-short (suc n) [] h = refl
  take-short (suc n) (x ∷ xs) h = ap (x ∷◌) (take-short n xs (omega arith))

  pub take-suc-nil : (k : ℕ) (xs : List A) → take (suc k) xs ≡ [] → xs ≡ []
  take-suc-nil k [] e = refl
  take-suc-nil k (x ∷ xs) e = cc

-- A strict order, and lists in that order.
module _ {ℓ} {A : Type ℓ} (precedes : A → A → Bool) where
  abbrev pub Ordered : List A → Type ℓ
  Ordered [] = Unit
  Ordered (x ∷ xs) = All (λ y. precedes x y ≡ true) xs × Ordered xs

  pub Ordered-filter : (p : A → Bool) (xs : List A) → Ordered xs → Ordered (filter p xs)
  Ordered-filter p [] h = h
  Ordered-filter p (x ∷ xs) h = elim (Bool-cases (p x)) [
    | inl e ↦ rw e (All-filter (λ y. precedes x y ≡ true) p xs h.0, Ordered-filter p xs h.1)
    | inr e ↦ rw e (Ordered-filter p xs h.1)
  ]

  module _ (asym : (x y : A) → precedes x y ≡ true → precedes y x ≡ false) where
    irreflexive : (x : A) → precedes x x ≡ false
    irreflexive x = elim (Bool-cases (precedes x x)) [ inl e ↦ asym x x e | inr e ↦ e ]

    -- What the last element of a page precedes is what stands behind the page.
    pub filter-get_last? :
        (k : ℕ) (xs : List A) (m : A)
        → Ordered xs
        → get_last? (take (suc k) xs) ≡ some m
        → filter (precedes m) xs ≡ drop (suc k) xs
    filter-get_last? k [] m h e = refl
    filter-get_last? zero (x ∷ xs) m h e =
        let same : x ≡ m = cc in
        subst (λ z. filter (precedes z) (x ∷ xs) ≡ xs) same
          (rw (irreflexive x) (filter-All (precedes x) xs h.0))
    filter-get_last? (suc k) (x ∷ []) m h e =
        let same : x ≡ m = cc in
        subst (λ z. filter (precedes z) (x ∷ []) ≡ []) same (rw (irreflexive x))
    filter-get_last? (suc k) (x ∷ y ∷ ys) m h e =
        rw
          (asym x m (
            All-get_last? (λ z. precedes x z ≡ true) (take (suc k) (y ∷ ys)) m
              (All-take (λ z. precedes x z ≡ true) (suc k) (y ∷ ys) h.0) e))
          (filter-get_last? k (y ∷ ys) m h.1 e)

module _ {ℓ} {A : Type ℓ} (precedes : A → A → Bool) where
  Ordered-append_last :
      (xs : List A) (x : A)
      → Ordered (λ y z. precedes z y) xs
      → All (λ y. precedes x y ≡ true) xs
      → Ordered (λ y z. precedes z y) (xs ++ x ∷ [])
  Ordered-append_last [] x h below = (tt, tt)
  Ordered-append_last (y ∷ ys) x h below = (
    All-append (λ z. precedes z y ≡ true) ys (x ∷ []) h.0 (below.0, tt),
    Ordered-append_last ys x h.1 below.1,
  )

  -- Turning a list round turns its order round.
  pub Ordered-reverse :
      (xs : List A) → Ordered precedes xs → Ordered (λ y z. precedes z y) (reverse xs)
  Ordered-reverse [] h = h
  Ordered-reverse (x ∷ xs) h = rw reverse-cons (
      Ordered-append_last (reverse xs) x (Ordered-reverse xs h.1)
        (All-reverse (λ y. precedes x y ≡ true) xs h.0))

-- Pages by a cursor: `behind a x` tells that `x` stands behind the cursor `a`.
module _ {ℓ} {A : Type ℓ} (key : A → ℕ) (behind : ℕ → A → Bool)
    (asym : (x y : A) → behind (key x) y ≡ true → behind (key y) x ≡ false)
    (trans : (a : ℕ) (x y : A)
      → behind a x ≡ true
      → behind (key x) y ≡ true
      → behind a y ≡ true) where
  -- Behind the last element of a page stands what the page left.
  pub beyond-get_last? :
      (k : ℕ) (cursor : Option ℕ) (xs : List A) (m : A)
      → Ordered (λ x y. behind (key x) y) xs
      → get_last? (take (suc k) (beyond behind cursor xs)) ≡ some m
      → beyond behind (some (key m)) xs ≡ drop (suc k) (beyond behind cursor xs)
  beyond-get_last? k none xs m h e = filter-get_last? (λ x y. behind (key x) y) asym k xs m h e
  beyond-get_last? k (some a) xs m h e =
      rw
        (← filter-filter_absorb (behind (key m)) (behind a) xs (λ y. trans a m y (
          All-get_last? (λ x. behind a x ≡ true) (take (suc k) (filter (behind a) xs)) m
            (All-take (λ x. behind a x ≡ true) (suc k) (filter (behind a) xs)
              (All-filter_self (behind a) xs))
            e)))
        (filter-get_last? (λ x y. behind (key x) y) asym k (filter (behind a) xs) m
          (Ordered-filter (λ x y. behind (key x) y) (behind a) xs h) e)
