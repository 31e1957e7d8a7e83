-- ===== src/Canvas/Address/Order.antt =====
-- The presentation order of addresses.
use Prim.Native.Nat.{Ordering, lt, eq, gt}
use puc.Base.{◌<◌, ◌≡◌, refl, true, [], ◌∷◌, length, arith}
use puc.Canvas.Address.{
  AddressComponent, TurnAddress, component_eq, compare_components, compare_addresses, starts_with,
  is_prefix_of,
}

abbrev pub opposite : Ordering → Ordering
opposite lt = gt
opposite eq = eq
opposite gt = lt

compare_components-eq : (a b : AddressComponent) → compare_components a b ≡ eq → a ≡ b
unfolding compare_components
compare_components-eq a b h = ground arith

compare_components-opposite :
    (a b : AddressComponent) → compare_components b a ≡ opposite (compare_components a b)
unfolding compare_components
compare_components-opposite a b = ground arith

compare_components_trans :
    (a b c : AddressComponent)
    → compare_components a b ≡ lt
    → compare_components b c ≡ lt
    → compare_components a c ≡ lt
unfolding compare_components
compare_components_trans a b c h k = ground arith

-- Two addresses compare equal only if they are the same.
pub compare_addresses-eq : (a b : TurnAddress) → compare_addresses a b ≡ eq → a ≡ b
unfolding compare_addresses
compare_addresses-eq [] [] h = refl
compare_addresses-eq [] (b ∷ bs) h = cc
compare_addresses-eq (a ∷ as') [] h = cc
compare_addresses-eq (a ∷ as') (b ∷ bs) h =
    ground (arith, compare_components-eq a b, compare_addresses-eq as' bs)

pub compare_addresses-opposite :
    (a b : TurnAddress) → compare_addresses b a ≡ opposite (compare_addresses a b)
unfolding compare_addresses
compare_addresses-opposite [] [] = refl
compare_addresses-opposite [] (b ∷ bs) = refl
compare_addresses-opposite (a ∷ as') [] = refl
compare_addresses-opposite (a ∷ as') (b ∷ bs) =
    ground (arith, compare_components-opposite a b, compare_addresses-opposite as' bs)

pub compare_addresses_trans :
    (a b c : TurnAddress)
    → compare_addresses a b ≡ lt
    → compare_addresses b c ≡ lt
    → compare_addresses a c ≡ lt
unfolding compare_addresses
compare_addresses_trans a [] c h k = ground (arith, compare_addresses-opposite a [])
compare_addresses_trans [] (b ∷ bs) [] h k = cc
compare_addresses_trans [] (b ∷ bs) (c ∷ cs) h k = refl
compare_addresses_trans (a ∷ as') (b ∷ bs) [] h k = cc
compare_addresses_trans (a ∷ as') (b ∷ bs) (c ∷ cs) h k = ground (
  arith,
  compare_components_trans a b c,
  compare_components-eq a b,
  compare_components-eq b c,
  compare_addresses_trans as' bs cs,
)

component_eq-compare :
    (a b : AddressComponent) → component_eq a b ≡ true → compare_components a b ≡ eq
unfolding compare_components
component_eq-compare a b h = ground arith

starts_with-lt :
    (a b : TurnAddress) → length a < length b → starts_with a b ≡ true → compare_addresses a b ≡ lt
unfolding starts_with compare_addresses
starts_with-lt a [] h s = absurd (omega arith)
starts_with-lt [] (b ∷ bs) h s = refl
starts_with-lt (a ∷ as') (b ∷ bs) h s =
    ground (arith, component_eq-compare a b, starts_with-lt as' bs)

-- An ancestor is presented before its descendants.
pub is_prefix_of-lt : (a b : TurnAddress) → is_prefix_of a b ≡ true → compare_addresses a b ≡ lt
unfolding is_prefix_of
is_prefix_of-lt a b h = ground (arith, starts_with-lt a b)

-- The order of presentation is a strict total order, in which ancestors come first.
pub record IsPresentationOrder (compare_by : TurnAddress → TurnAddress → Ordering) : Type 0 where
  pub identity : (a b : TurnAddress) → compare_by a b ≡ eq → a ≡ b
  pub antisymmetry : (a b : TurnAddress) → compare_by b a ≡ opposite (compare_by a b)
  pub transitivity :
      (a b c : TurnAddress) → compare_by a b ≡ lt → compare_by b c ≡ lt → compare_by a c ≡ lt
  pub ancestors_first : (a b : TurnAddress) → is_prefix_of a b ≡ true → compare_by a b ≡ lt

pub compare_addresses-IsPresentationOrder : IsPresentationOrder compare_addresses
compare_addresses-IsPresentationOrder = record {
  identity = compare_addresses-eq;
  antisymmetry = compare_addresses-opposite;
  transitivity = compare_addresses_trans;
  ancestors_first = is_prefix_of-lt;
}
