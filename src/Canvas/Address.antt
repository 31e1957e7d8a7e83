-- ===== src/Canvas/Address.antt =====
-- canvas/turn/address.hpp and canvas/turn/address.cpp: the human-readable address of a turn.
-- A character is its byte. `std::from_chars` and `std::to_string` are decimal conversion;
-- `from_chars` fails on a value that does not fit 64 bits.
pub mod Component
pub mod RoundTrip
pub mod Valid
pub mod Order
mod Tests
use puc.Base.{
  ℕ, zero, suc, ◌+◌, ◌-◌, ◌*◌, ◌/◌, ◌%◌, ◌^◌, Bool, true, false, ◌&&◌, List, [], ◌∷◌, ◌++◌, Option,
  none, some, length, ltb, leb, ◌==◌, if◌then◌else◌,
}
use puc.Base.Bytes.{Bytes}
use Prim.Native.Nat.{compare, Ordering}

pub data Kind : Type 0 where
  numeric alphabetic : Kind

pub record AddressComponent : Type 0 where
  pub kind : Kind
  pub ordinal : ℕ

-- `TurnAddress` is its vector of components, root to leaf.
abbrev pub TurnAddress : Type 0
TurnAddress = List AddressComponent

abbrev pub u64_max : ℕ
u64_max = 2 ^ 64 - 1

abbrev pub kind_eq : Kind → Kind → Bool
kind_eq numeric numeric = true
kind_eq alphabetic alphabetic = true
kind_eq _ _ = false

-- `operator<=>` of components: numeric before alphabetic, then by ordinal.
unfoldable pub compare_components : AddressComponent → AddressComponent → Ordering
compare_components a b =
    if kind_eq a.kind b.kind
    then compare a.ordinal b.ordinal
    else elim a.kind [ numeric ↦ Ordering.lt | alphabetic ↦ Ordering.gt ]

-- `std::lexicographical_compare_three_way` on the components.
unfoldable pub compare_addresses : TurnAddress → TurnAddress → Ordering
unfolding compare_components
compare_addresses [] [] = Ordering.eq
compare_addresses [] (b ∷ bs) = Ordering.lt
compare_addresses (a ∷ as') [] = Ordering.gt
compare_addresses (a ∷ as') (b ∷ bs) = elim (compare_components a b) [
  | Ordering.eq ↦ compare_addresses as' bs
  | Ordering.lt ↦ Ordering.lt
  | Ordering.gt ↦ Ordering.gt
]

abbrev pub component_eq : AddressComponent → AddressComponent → Bool
component_eq a b = kind_eq a.kind b.kind && a.ordinal == b.ordinal

-- The loop of `std::equal` over the shorter address.
unfoldable pub starts_with : TurnAddress → TurnAddress → Bool
starts_with [] bs = true
starts_with (a ∷ as') [] = false
starts_with (a ∷ as') (b ∷ bs) = component_eq a b && starts_with as' bs

unfoldable pub is_prefix_of : TurnAddress → TurnAddress → Bool
unfolding starts_with
is_prefix_of a b = ltb (length a) (length b) && starts_with a b

abbrev pub is_digit : ℕ → Bool
is_digit c = leb b'0' c && leb c b'9'

-- The value of a run of digits; another byte ends the conversion before the end of the text.
unfoldable pub decimal_value : ℕ → Bytes → Option ℕ
decimal_value value [] = some value
decimal_value value (c ∷ cs) =
    let rest = decimal_value (value * 10 + (c - b'0')) cs in if is_digit c then rest else none

-- `from_chars` on the whole text: the value, or none on overflow or on another byte.
unfoldable pub from_chars : Bytes → Option ℕ
unfolding decimal_value
from_chars text = elim (decimal_value 0 text) [
  | none ↦ none
  | some value ↦ if ltb u64_max value then none else some value
]

-- The loop over letters, with its check for overflow.
unfoldable pub alphabetic_value : ℕ → Bytes → Option ℕ
alphabetic_value value [] = some value
alphabetic_value value (c ∷ cs) =
    let digit = c - b'a' + 1 in
    let rest = alphabetic_value (value * 26 + digit) cs in
    if ltb c b'a'
    then none
    else if ltb b'z' c
    then none
    else if ltb ((u64_max - digit) / 26) value
    then none
    else rest

abbrev pub component : Kind → ℕ → AddressComponent
component kind ordinal = record { kind = kind; ordinal = ordinal }

unfoldable pub parse_component : Bytes → Option AddressComponent
unfolding from_chars alphabetic_value
parse_component [] = none
parse_component (c ∷ cs) =
    if is_digit c
    then if c == b'0' then none else elim (from_chars (c ∷ cs)) [
      | none ↦ none
      | some value ↦ if value == 0 then none else some (component numeric value)
    ]
    else elim (alphabetic_value 0 (c ∷ cs)) [
      | none ↦ none
      | some value ↦ some (component alphabetic value)
    ]

-- The text up to the next dot, and what stands behind the dot, if there is one.
unfoldable pub segment : Bytes → Bytes × Option Bytes
segment [] = ([], none)
segment (c ∷ cs) = let r = segment cs in if c == b'.' then ([], some cs) else (c ∷ r.0, r.1)

-- The loop of `parse`; each round drops a dot, so the length of the text bounds the rounds.
unfoldable pub parse_from : ℕ → Bytes → TurnAddress → Option TurnAddress
parse_from zero text components = some components
parse_from (suc fuel) [] components = some components
parse_from (suc fuel) (c ∷ cs) components =
    let s = segment (c ∷ cs) in
    elim (parse_component s.0) [
      | none ↦ none
      | some parsed ↦ elim s.1 [
        | none ↦ some (components ++ (parsed ∷ []))
        | some rest ↦ parse_from fuel rest (components ++ (parsed ∷ []))
      ]
    ]

unfoldable pub parse : Bytes → Option TurnAddress
parse [] = none
parse (c ∷ cs) = parse_from (suc (length cs)) (c ∷ cs) []

abbrev pub root : ℕ → TurnAddress
root ordinal = component numeric ordinal ∷ []

abbrev pub numeric_child : TurnAddress → ℕ → TurnAddress
numeric_child address ordinal = address ++ (component numeric ordinal ∷ [])

abbrev pub alphabetic_child : TurnAddress → ℕ → TurnAddress
alphabetic_child address ordinal = address ++ (component alphabetic ordinal ∷ [])

-- `std::to_string`: the last digits are already in `text`. The number bounds the rounds.
unfoldable pub decimal_digits : ℕ → ℕ → Bytes → Bytes
decimal_digits zero n text = text
decimal_digits (suc fuel) n text =
    let digit = b'0' + n % 10 in
    let rest = decimal_digits fuel (n / 10) (digit ∷ text) in
    if ltb n 10 then digit ∷ text else rest

abbrev pub to_string : ℕ → Bytes
to_string n = decimal_digits (suc n) n []

-- `alphabetic`: pushing letters and reversing at the end is putting each in front.
unfoldable pub letters : ℕ → ℕ → Bytes → Bytes
letters zero ordinal text = text
letters (suc fuel) ordinal text =
    let before = ordinal - 1 in
    let rest = letters fuel (before / 26) ((b'a' + before % 26) ∷ text) in
    if ordinal == 0 then text else rest

unfoldable pub component_string : AddressComponent → Bytes
unfolding decimal_digits letters
component_string c = elim c.kind [
  | numeric ↦ to_string c.ordinal
  | alphabetic ↦ letters (suc c.ordinal) c.ordinal []
]

-- The loop of `string`: no dot is put in front of the first text.
unfoldable pub string_from : Bytes → TurnAddress → Bytes
unfolding component_string
string_from result [] = result
string_from [] (c ∷ cs) = string_from (component_string c) cs
string_from (r ∷ rs) (c ∷ cs) = string_from ((r ∷ rs) ++ (b'.' ∷ component_string c)) cs

unfoldable pub string : TurnAddress → Bytes
unfolding string_from
string address = string_from [] address
