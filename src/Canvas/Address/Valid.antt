-- ===== src/Canvas/Address/Valid.antt =====
-- What `parse` of canvas/turn/address.cpp accepts is the address of a turn.
use puc.Base.{
  ℕ, zero, suc, ◌+◌, ◌-◌, ◌*◌, ◌≤◌, ◌<◌, ◌≡◌, ap, subst, ◌≢◌, inl, inr, some, [], ◌∷◌, ◌++◌, arith,
  Option-cases, length, All, length-append, All-append,
}
use puc.Base.Bytes.{Bytes}
use puc.Canvas.Address.{
  AddressComponent, TurnAddress, u64_max, from_chars, alphabetic_value, parse_component, segment,
  parse_from, parse,
}
use mathlib.Core.Option.{some-injective}
use puc.Canvas.Address.Component.{IsValidComponent}
use puc.Canvas.Address.RoundTrip.{IsValidAddress}

alphabetic_value-bounds :
    (text : Bytes) (value result : ℕ)
    → value ≤ u64_max
    → alphabetic_value value text ≡ some result
    → (value ≤ result) × (result ≤ u64_max)
unfolding alphabetic_value
alphabetic_value-bounds [] value result h e = ground (arith, h, e)
alphabetic_value-bounds (c ∷ cs) value result h e =
    ground (arith, h, e, alphabetic_value-bounds cs (value * 26 + (c - b'a' + 1)) result)

from_chars-bound : (text : Bytes) (n : ℕ) → from_chars text ≡ some n → n ≤ u64_max
unfolding from_chars
from_chars-bound text n e = ground (arith, e)

letters-bounds :
    (x n : ℕ) (xs : Bytes) → alphabetic_value 0 (x ∷ xs) ≡ some n → (0 < n) × (n ≤ u64_max)
unfolding alphabetic_value
letters-bounds x n xs e = ground (arith, e, alphabetic_value-bounds xs (0 * 26 + (x - b'a' + 1)) n)

abbrev Fits : ℕ → Type 0
Fits n = (0 < n) × (n ≤ u64_max)

parse_component-bounds :
    (x : ℕ) (xs : Bytes) (c : AddressComponent) → parse_component (x ∷ xs) ≡ some c → Fits c.ordinal
unfolding parse_component
parse_component-bounds x xs c e = elim (Option-cases (from_chars (x ∷ xs))) [
  | inl m ↦ elim (Option-cases (alphabetic_value 0 (x ∷ xs))) [
    | inl l ↦ absurd (ground (arith, m, l, e))
    | inr (n, l) ↦ ground (arith, m, l, e, letters-bounds x n xs l)
  ]
  | inr (v, m) ↦ elim (Option-cases (alphabetic_value 0 (x ∷ xs))) [
    | inl l ↦ ground (arith, m, l, e, from_chars-bound (x ∷ xs) v m)
    | inr (n, l) ↦ ground (arith, m, l, e, from_chars-bound (x ∷ xs) v m, letters-bounds x n xs l)
  ]
]

parse_component-IsValidComponent :
    (text : Bytes) (c : AddressComponent) → parse_component text ≡ some c → IsValidComponent c
unfolding parse_component
parse_component-IsValidComponent [] c e = absurd (ground (arith, e))
parse_component-IsValidComponent (x ∷ xs) c e =
    let b = parse_component-bounds x xs c e in record { positive = b.0; fits = b.1 }

added :
    (done : TurnAddress) (c : AddressComponent)
    → All IsValidComponent done
    → IsValidComponent c
    → IsValidAddress (done ++ (c ∷ []))
added done c h v = record {
  nonempty = λ e. omega (arith, ap length e, length-append done (c ∷ []));
  components = All-append IsValidComponent done (c ∷ []) h (v, tt);
}

whole :
    (done a : TurnAddress)
    → All IsValidComponent done
    → done ≢ []
    → some done ≡ some a
    → IsValidAddress a
whole done a h n e =
    subst IsValidAddress (some-injective done a e) (record { nonempty = n; components = h })

parse_from-IsValidAddress :
    (fuel : ℕ) (text : Bytes) (done a : TurnAddress)
    → All IsValidComponent done
    → done ≢ []
    → parse_from fuel text done ≡ some a
    → IsValidAddress a
unfolding parse_from
parse_from-IsValidAddress zero text done a h n e = whole done a h n e
parse_from-IsValidAddress (suc fuel) [] done a h n e = whole done a h n e
parse_from-IsValidAddress (suc fuel) (x ∷ xs) done a h n e =
    elim (Option-cases (parse_component (segment (x ∷ xs)).0)) [
      | inl m ↦ absurd (ground (arith, m, e))
      | inr (c, m) ↦
          let v = added done c h (parse_component-IsValidComponent _ c m) in
          elim (Option-cases (segment (x ∷ xs)).1) [
            | inl l ↦ subst IsValidAddress (some-injective _ _ (ground (arith, m, l, e))) v
            | inr (rest, l) ↦
                parse_from-IsValidAddress fuel rest (done ++ (c ∷ [])) a v.components v.nonempty
                  (ground (arith, m, l, e))
          ]
    ]

first_round :
    (x : ℕ) (xs : Bytes) (a : TurnAddress)
    → parse_from (suc (length xs)) (x ∷ xs) [] ≡ some a
    → IsValidAddress a
unfolding parse_from
first_round x xs a e = elim (Option-cases (parse_component (segment (x ∷ xs)).0)) [
  | inl m ↦ absurd (ground (arith, m, e))
  | inr (c, m) ↦
      let v = added [] c tt (parse_component-IsValidComponent _ c m) in
      elim (Option-cases (segment (x ∷ xs)).1) [
        | inl l ↦ subst IsValidAddress (some-injective _ _ (ground (arith, m, l, e))) v
        | inr (rest, l) ↦
            parse_from-IsValidAddress (length xs) rest (c ∷ []) a v.components v.nonempty
              (ground (arith, m, l, e))
      ]
]

-- An address that `parse` accepts names a turn: it has a component, and each ordinal is positive and
-- fits 64 bits.
pub parse-IsValidAddress : (text : Bytes) (a : TurnAddress) → parse text ≡ some a → IsValidAddress a
unfolding parse
parse-IsValidAddress [] a e = absurd (ground (arith, e))
parse-IsValidAddress (x ∷ xs) a e = first_round x xs a e
