-- ===== src/Base/Assoc.antt =====
-- `std::unordered_map` as an association list with distinct keys: `find`, `contains` and `size`
-- read it, `emplace` appends a new key, `modify` writes through a pointer to a stored value.
use mathlib.Core.Path.{◌≡◌, refl}
use mathlib.Core.Logic.{◌↔◌}
use mathlib.Core.Bool.{Bool, true, false}
use mathlib.Core.List.{List, [], ◌∷◌, ◌++◌}
use mathlib.Core.Option.{Option, none, some}
use mathlib.Core.Option
use native.Mathlib.Omega.{arith}
use puc.Base.Tests.{if◌then◌else◌}

-- Equality of keys, as `std::hash` and `operator==` give it to the map.
pub record Eq {ℓ} (K : Type ℓ) : Type ℓ where
  pub beq : K → K → Bool
  pub beq_iff : (a b : K) → (beq a b ≡ true) ↔ (a ≡ b)

module _ {ℓ κ} {K : Type ℓ} {V : Type κ} ⦃e : Eq K⦄ where
  unfoldable pub lookup : K → List (K × V) → Option V
  lookup k [] = none
  lookup k ((j, v) ∷ m) = if e.beq j k then some v else lookup k m

  unfoldable pub contains : K → List (K × V) → Bool
  contains k m = elim (lookup k m) [ none ↦ false | some _ ↦ true ]

  unfoldable pub emplace : K → V → List (K × V) → List (K × V)
  unfolding contains
  emplace k v m = if contains k m then m else m ++ ((k, v) ∷ [])

  unfoldable pub modify : K → (V → V) → List (K × V) → List (K × V)
  modify k f [] = []
  modify k f ((j, v) ∷ m) = if e.beq j k then (j, f v) ∷ m else (j, v) ∷ modify k f m

  pub lookup-append :
      (k : K) (m n : List (K × V))
      → lookup k (m ++ n) ≡ elim (lookup k m) [ none ↦ lookup k n | some v ↦ some v ]
  unfolding lookup
  lookup-append k [] n = refl
  lookup-append k ((j, v) ∷ m) n = ground (arith, lookup-append k m n)

  pub lookup-emplace :
      (k j : K) (v : V) (m : List (K × V))
      → lookup k m ≡ none
      → lookup j (emplace k v m) ≡ (if e.beq k j then some v else lookup j m)
  unfolding emplace lookup
  lookup-emplace k j v m h = ground (arith, lookup-append j m ((k, v) ∷ []), e.beq_iff k j)

  pub lookup-modify :
      (k j : K) (f : V → V) (m : List (K × V))
      → lookup j (modify k f m) ≡ (if e.beq k j then Option.map f (lookup j m) else lookup j m)
  unfolding modify lookup
  lookup-modify k j f [] = ground arith
  lookup-modify k j f ((i, v) ∷ m) =
      ground (arith, e.beq_iff i k, e.beq_iff i j, e.beq_iff k j, lookup-modify k j f m)
