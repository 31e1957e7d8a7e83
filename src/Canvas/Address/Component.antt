-- ===== src/Canvas/Address/Component.antt =====
-- Printing one component and parsing it back.
use puc.Base.{ℕ, zero, suc, ◌+◌, ◌-◌, ◌/◌, ◌%◌, ◌≤◌, ◌<◌, ◌≡◌, ◌≢◌, [], ◌∷◌, some, All, arith}
use puc.Base.Bytes.{Bytes}
use puc.Canvas.Address.{
  AddressComponent, Kind, numeric, alphabetic, component, u64_max, decimal_value, alphabetic_value,
  parse_component, decimal_digits, to_string, letters, component_string,
}

-- A component that a turn can have: its ordinal is positive and fits 64 bits.
pub record IsValidComponent (c : AddressComponent) : Type 0 where
  pub positive : 0 < c.ordinal
  pub fits : c.ordinal ≤ u64_max

abbrev pub Starts : (ℕ → Type 0) → Bytes → Type 0
Starts P [] = ⊥
Starts P (c ∷ cs) = P c

abbrev NoDot : ℕ → Type 0
NoDot c = c ≢ b'.'

decimal_value-decimal_digits :
    (fuel n : ℕ) (text : Bytes)
    → n < fuel
    → decimal_value 0 (decimal_digits fuel n text) ≡ decimal_value n text
unfolding decimal_digits decimal_value
decimal_value-decimal_digits zero n text h = absurd (omega arith)
decimal_value-decimal_digits (suc fuel) n text h =
    ground (arith, decimal_value-decimal_digits fuel (n / 10) ((b'0' + n % 10) ∷ text))

decimal_digits-Starts :
    (fuel n : ℕ) (text : Bytes)
    → n < fuel
    → 0 < n
    → Starts (λ c. (b'1' ≤ c) × (c ≤ b'9')) (decimal_digits fuel n text)
unfolding decimal_digits
decimal_digits-Starts zero n text h p = absurd (omega arith)
decimal_digits-Starts (suc fuel) n text h p =
    ground (arith, decimal_digits-Starts fuel (n / 10) ((b'0' + n % 10) ∷ text))

decimal_digits-All :
    (fuel n : ℕ) (text : Bytes) → All NoDot text → All NoDot (decimal_digits fuel n text)
unfolding decimal_digits
decimal_digits-All zero n text h = h
decimal_digits-All (suc fuel) n text h =
    ground (arith, decimal_digits-All fuel (n / 10) ((b'0' + n % 10) ∷ text))

alphabetic_value-letters :
    (fuel n : ℕ) (text : Bytes)
    → n < fuel
    → n ≤ u64_max
    → alphabetic_value 0 (letters fuel n text) ≡ alphabetic_value n text
unfolding letters alphabetic_value
alphabetic_value-letters zero n text h m = absurd (omega arith)
alphabetic_value-letters (suc fuel) n text h m =
    ground (arith, alphabetic_value-letters fuel ((n - 1) / 26) ((b'a' + (n - 1) % 26) ∷ text))

letters-Starts :
    (fuel n : ℕ) (text : Bytes)
    → n < fuel
    → 0 < n
    → Starts (λ c. (b'a' ≤ c) × (c ≤ b'z')) (letters fuel n text)
unfolding letters
letters-Starts zero n text h p = absurd (omega arith)
letters-Starts (suc zero) n text h p = absurd (omega arith)
letters-Starts (suc (suc fuel)) n text h p =
    ground (arith, letters-Starts (suc fuel) ((n - 1) / 26) ((b'a' + (n - 1) % 26) ∷ text))

letters-All : (fuel n : ℕ) (text : Bytes) → All NoDot text → All NoDot (letters fuel n text)
unfolding letters
letters-All zero n text h = h
letters-All (suc fuel) n text h =
    ground (arith, letters-All fuel ((n - 1) / 26) ((b'a' + (n - 1) % 26) ∷ text))

-- A run of digits that begins with a digit other than 0 is read as a number.
parse_component_digits :
    (text : Bytes) (n : ℕ)
    → Starts (λ c. (b'1' ≤ c) × (c ≤ b'9')) text
    → decimal_value 0 text ≡ some n
    → 0 < n
    → n ≤ u64_max
    → parse_component text ≡ some (component numeric n)
unfolding parse_component
parse_component_digits [] n s e p m = absurd s
parse_component_digits (c ∷ cs) n s e p m = ground arith

parse_component_letters :
    (text : Bytes) (n : ℕ)
    → Starts (λ c. (b'a' ≤ c) × (c ≤ b'z')) text
    → alphabetic_value 0 text ≡ some n
    → parse_component text ≡ some (component alphabetic n)
unfolding parse_component
parse_component_letters [] n s e = absurd s
parse_component_letters (c ∷ cs) n s e = ground arith

-- The parts of a printed component that `parse` relies on.
pub record Printed (c : AddressComponent) (text : Bytes) : Type 0 where
  pub nonempty : Starts (λ x. Unit {0}) text
  pub dotless : All NoDot text
  pub parses : parse_component text ≡ some c

Starts-weaken : (P : ℕ → Type 0) (text : Bytes) → Starts P text → Starts (λ x. Unit {0}) text
Starts-weaken P [] h = h
Starts-weaken P (c ∷ cs) h = tt

printed :
    (kind : Kind) (n : ℕ)
    → 0 < n
    → n ≤ u64_max
    → Printed (component kind n) (component_string (component kind n))
unfolding component_string decimal_value alphabetic_value
printed numeric n p m =
    let start = decimal_digits-Starts (suc n) n [] (omega arith) p in
    record {
      nonempty = Starts-weaken _ (to_string n) start;
      dotless = decimal_digits-All (suc n) n [] tt;
      parses =
          parse_component_digits (to_string n) n start
            (decimal_value-decimal_digits (suc n) n [] (omega arith)) p m;
    }
printed alphabetic n p m =
    let start = letters-Starts (suc n) n [] (omega arith) p in
    record {
      nonempty = Starts-weaken _ (letters (suc n) n []) start;
      dotless = letters-All (suc n) n [] tt;
      parses =
          parse_component_letters (letters (suc n) n []) n start
            (alphabetic_value-letters (suc n) n [] (omega arith) m);
    }

pub component_string-Printed :
    (c : AddressComponent) → IsValidComponent c → Printed c (component_string c)
component_string-Printed c v = printed c.kind c.ordinal v.positive v.fits
