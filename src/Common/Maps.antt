-- ===== src/Common/Maps.antt =====
-- `std::map` with integer keys: an association list in the order of its keys.
use Prim.Native.Nat.{ℕ, compare, Ordering}
use mathlib.Core.Path.{◌≡◌, refl}
use mathlib.Core.List.{List, [], ◌∷◌}
use mathlib.Core.Option.{Option, none, some}
use native.Mathlib.Omega.{arith}
use everest_core_dev.Common.Tests.{◌==◌, if◌then◌else◌}

abbrev pub Map {ℓ} : Type ℓ → Type ℓ
Map V = List (ℕ × V)

module _ {ℓ} {V : Type ℓ} where
  unfoldable pub erase : ℕ → Map V → Map V
  erase key [] = []
  erase key ((at, value) ∷ rest) =
      if at == key then erase key rest else (at, value) ∷ erase key rest

  -- The change of a value in place; a key that is missing stays missing.
  unfoldable pub adjust : ℕ → (V → V) → Map V → Map V
  adjust key f [] = []
  adjust key f ((at, value) ∷ rest) = (at, if at == key then f value else value) ∷ adjust key f rest

  unfoldable pub lookup : ℕ → Map V → Option V
  lookup key [] = none
  lookup key ((at, value) ∷ rest) = if at == key then some value else lookup key rest

  -- `m[key] = value`.
  unfoldable pub insert : ℕ → V → Map V → Map V
  insert key value [] = (key, value) ∷ []
  insert key value ((at, old) ∷ rest) = elim (compare key at) [
    | Ordering.lt ↦ (key, value) ∷ (at, old) ∷ rest
    | Ordering.eq ↦ (key, value) ∷ rest
    | Ordering.gt ↦ (at, old) ∷ insert key value rest
  ]

  pub lookup-erase :
      (key other : ℕ) (map : Map V)
      → lookup other (erase key map) ≡ (if key == other then none else lookup other map)
  unfolding lookup erase
  lookup-erase key other [] = ground arith
  lookup-erase key other ((at, value) ∷ rest) = ground (arith, lookup-erase key other rest)

  abbrev pub map_some : (V → V) → Option V → Option V
  map_some f none = none
  map_some f (some value) = some (f value)

  pub lookup-adjust :
      (key other : ℕ) (f : V → V) (map : Map V)
      → lookup other (adjust key f map)
        ≡ (if key == other then map_some f (lookup other map) else lookup other map)
  unfolding lookup adjust
  lookup-adjust key other f [] = ground arith
  lookup-adjust key other f ((at, value) ∷ rest) = ground (arith, lookup-adjust key other f rest)

  pub lookup-insert :
      (key other : ℕ) (value : V) (map : Map V)
      → lookup other (insert key value map)
        ≡ (if key == other then some value else lookup other map)
  unfolding lookup insert
  lookup-insert key other value [] = refl
  lookup-insert key other value ((at, old) ∷ rest) =
      ground (arith, lookup-insert key other value rest)
