-- ===== src/Storage/Session.antt =====
-- Calls that go through a database session, and the unit of work around them. A call leaves the
-- state of the transaction also when it raises; the unit of work commits or rolls it back.
use dizzchat.Prelude.{◌≡◌, refl, ap, Exec, Result, ok, err}
use dizzchat.Errors.{Error}
use dizzchat.Storage.Rows.{Database}

-- A call over any state that may raise.
abbrev pub Action {ℓ κ} : Type ℓ → Type κ → Type (ℓ ⊔ κ)
Action S A = Exec Error S A

module _ {ℓ κ μ} {S : Type ℓ} {A : Type κ} {B : Type μ} where
  infixl 5 ◌>>=◌ ◌>>◌
  abbrev pub resume : (A → Action S B) → Result Error A × S → Result Error B × S
  resume f (ok a, s) = f a s
  resume f (err e, s) = (err e, s)

  abbrev pub ◌>>=◌ : Action S A → (A → Action S B) → Action S B
  ◌>>=◌ m f s = resume f (m s)

  abbrev pub ◌>>◌ : Action S A → Action S B → Action S B
  m >> k = m >>= λ _. k

  -- A bind whose first call returned, and one whose first call raised.
  pub >>=-ok :
      (m : Action S A) (f : A → Action S B) {s s' : S} {a : A}
      → m s ≡ (ok a, s')
      → (m >>= f) s ≡ f a s'
  >>=-ok m f e = ap (λ (x : Result Error A × S). resume f x) e

  pub >>=-err :
      (m : Action S A) (f : A → Action S B) {s s' : S} {x : Error}
      → m s ≡ (err x, s')
      → (m >>= f) s ≡ (err x, s')
  >>=-err m f e = ap (λ (x : Result Error A × S). resume f x) e

module _ {ℓ κ} {S : Type ℓ} {A : Type κ} where
  abbrev pub pure : A → Action S A
  pure a s = (ok a, s)

  abbrev pub raise : Error → Action S A
  raise e s = (err e, s)

  -- A computation that may raise and writes nothing.
  abbrev pub lift : Result Error A → Action S A
  lift r s = (r, s)

  -- A query.
  abbrev pub query : (S → Result Error A) → Action S A
  query f s = (f s, s)

  abbrev pub gets : (S → A) → Action S A
  gets f s = (ok (f s), s)

unfoldable pub settle {κ} :
    {A : Type κ} → Database → Result Error A × Database → Result Error A × Database
settle db (ok a, db') = (ok a, db')
settle db (err e, db') = (err e, record db { next_message_id = db'.next_message_id })

-- A unit of work: what it wrote is kept if it returns and undone if it raises, but for the numbers
-- that a sequence gave out, which are not given out again. The commit is taken to succeed.
unfoldable pub transaction {κ} : {A : Type κ} → Action Database A → Action Database A
unfolding settle
transaction m db = settle db (m db)

-- To prove something of the outcome of a block: after its first call, on both of the ways in which
-- that may end.
module _ {ℓ κ μ ν} {S : Type ℓ} {A : Type κ} {B : Type μ} (Q : Result Error B × S → Type ν) where
  pub after :
      (m : Action S A) (k : A → Action S B) (s : S)
      → ((a : A) (s' : S) → m s ≡ (ok a, s') → Q (k a s'))
      → ((e : Error) (s' : S) → m s ≡ (err e, s') → Q (err e, s'))
      → Q ((m >>= k) s)
  after m k s returns raises = go (m s) refl
    where
      go : (r : Result Error A × S) → m s ≡ r → Q (resume k r)
      go (ok a, s') e = returns a s' e
      go (err x, s') e = raises x s' e

  pub after_query :
      (f : S → Result Error A) (k : A → Action S B) (s : S)
      → ((a : A) → f s ≡ ok a → Q (k a s))
      → ((e : Error) → f s ≡ err e → Q (err e, s))
      → Q ((query f >>= k) s)
  after_query f k s returns raises = go (f s) refl
    where
      go : (r : Result Error A) → f s ≡ r → Q (resume k (r, s))
      go (ok a) e = returns a e
      go (err x) e = raises x e
