-- ===== src/Prelude/Dict.antt =====
-- A Python dict from numbers, as an association list.
use Prim.Native.Nat.{ℕ}
use mathlib.Core.Path.{◌≡◌}
use mathlib.Core.Option.{Option, none, some}
use mathlib.Core.List.{List, [], ◌∷◌}
use native.Mathlib.Omega.{arith}
use dizzchat.Prelude.Tests.{◌==◌, if◌then◌else◌}

module _ {ℓ} {V : Type ℓ} where
  -- `d.get(k)`
  abbrev pub lookup : ℕ → List (ℕ × V) → Option V
  lookup k [] = none
  lookup k ((j, v) ∷ d) = if k == j then some v else lookup k d

  -- `d[k] = v`
  abbrev pub set_at : ℕ → V → List (ℕ × V) → List (ℕ × V)
  set_at k v [] = (k, v) ∷ []
  set_at k v ((j, w) ∷ d) = if k == j then (k, v) ∷ d else (j, w) ∷ set_at k v d

  -- `del d[k]`
  abbrev pub remove_key : ℕ → List (ℕ × V) → List (ℕ × V)
  remove_key k [] = []
  remove_key k ((j, w) ∷ d) = if k == j then remove_key k d else (j, w) ∷ remove_key k d

  pub lookup-set_at :
      (i k : ℕ) (v : V) (d : List (ℕ × V))
      → lookup i (set_at k v d) ≡ (if i == k then some v else lookup i d)
  lookup-set_at i k v [] = ground arith
  lookup-set_at i k v ((j, w) ∷ d) = ground (arith, lookup-set_at i k v d)

  pub lookup-remove_key :
      (i k : ℕ) (d : List (ℕ × V))
      → lookup i (remove_key k d) ≡ (if i == k then none else lookup i d)
  lookup-remove_key i k [] = ground arith
  lookup-remove_key i k ((j, w) ∷ d) = ground (arith, lookup-remove_key i k d)

-- `d.get(k, [])`
abbrev pub or_empty {ℓ} : {V : Type ℓ} → Option (List V) → List V
or_empty none = []
or_empty (some xs) = xs
