-- ===== src/Hash/Hex.antt =====
-- Printing and parsing the digests of utils/hash/sha256.cpp.
use puc.Base.{
  ℕ, zero, suc, ◌+◌, ◌*◌, ◌/◌, ◌%◌, ◌^◌, ◌≤◌, ◌<◌, ◌≡◌, refl, ap, ap₂, subst, ◌∙◌, ◌⊎◌, inl, inr,
  true, false, ◌&&◌, some, [], ◌∷◌, map, arith, leb, ◌==◌, if◌then◌else◌, Bool-cases, Option-cases,
  length, All,
}
use puc.Base.Bytes.{Bytes}
use mathlib.Core.Option.{some-injective}
use puc.Hash.{digit, hex_value, hex, from_pairs, no_hash, from_hex}

hex_value-digit : (n : ℕ) → n < 16 → hex_value (digit n) ≡ some n
unfolding hex_value
hex_value-digit n h = ground (arith, h)

length-hex : (bs : Bytes) → length (hex bs) ≡ 2 * length bs
unfolding hex
length-hex [] = refl
length-hex (b ∷ bs) = omega (arith, length-hex bs)

from_pairs-hex : (bs : Bytes) → All (λ b. b < 256) bs → from_pairs (hex bs) ≡ some bs
unfolding hex from_pairs
from_pairs-hex [] h = refl
from_pairs-hex (b ∷ bs) (l, h) =
    let again : (16 * (b / 16) + b % 16) % 2 ^ 8 ≡ b = omega (arith, l) in
    rw
      (
        from_pairs,
        hex_value-digit (b / 16) (omega (arith, l)),
        hex_value-digit (b % 16) (omega arith),
        from_pairs-hex bs h,
      )
      (ap (λ (x : ℕ). some (x ∷ bs)) again)

-- Parsing the printed form of a digest of 32 bytes gives the digest back.
pub from_hex-hex :
    (hash : Bytes) → length hash ≡ 32 → All (λ b. b < 256) hash → from_hex (hex hash) ≡ (true, hash)
unfolding from_hex
from_hex-hex hash l h =
    let size : (length (hex hash) == 64) ≡ true = ground (arith, length-hex hash, l) in
    rw (from_hex, size, from_pairs-hex hash h) refl

-- A letter from A to F in its lower case.
abbrev pub lower : ℕ → ℕ
lower c = if leb b'A' c && leb c b'F' then c + 32 else c

digit-lower : (c n : ℕ) → hex_value c ≡ some n → (n < 16) × (digit n ≡ lower c)
unfolding hex_value
digit-lower c n e = ground (arith, e)

two_digits :
    (c d high low : ℕ) (tail rest : Bytes)
    → hex_value c ≡ some high
    → hex_value d ≡ some low
    → hex tail ≡ map lower rest
    → hex ((16 * high + low) % 2 ^ 8 ∷ tail) ≡ map lower (c ∷ d ∷ rest)
unfolding hex
two_digits c d high low tail rest m k e =
    let p = digit-lower c high m in
    let q = digit-lower d low k in
    let first : ((16 * high + low) % 2 ^ 8) / 16 ≡ high = omega (arith, p.0, q.0) in
    let second : ((16 * high + low) % 2 ^ 8) % 16 ≡ low = omega (arith, p.0, q.0) in
    ap₂ ◌∷◌ (ap digit first ∙ p.1) (ap₂ ◌∷◌ (ap digit second ∙ q.1) e)

hex-from_pairs :
    (fuel : ℕ) (text bs : Bytes)
    → length text ≤ fuel
    → from_pairs text ≡ some bs
    → hex bs ≡ map lower text
unfolding hex from_pairs
hex-from_pairs fuel [] bs l e = subst (λ (x : Bytes). hex x ≡ []) (some-injective _ _ e) refl
hex-from_pairs fuel (c ∷ []) bs l e = absurd (ground (arith, e))
hex-from_pairs zero (c ∷ d ∷ rest) bs l e = absurd (omega (arith, l))
hex-from_pairs (suc fuel) (c ∷ d ∷ rest) bs l e = elim (Option-cases (hex_value c)) [
  | inl m ↦ absurd (ground (arith, m, e))
  | inr (high, m) ↦ elim (Option-cases (hex_value d)) [
    | inl k ↦ absurd (ground (arith, m, k, e))
    | inr (low, k) ↦ elim (Option-cases (from_pairs rest)) [
      | inl j ↦ absurd (ground (arith, m, k, j, e))
      | inr (tail, j) ↦
          subst (λ (x : Bytes). hex x ≡ map lower (c ∷ d ∷ rest))
            (some-injective ((16 * high + low) % 2 ^ 8 ∷ tail) bs (ground (arith, m, k, j, e)))
            (two_digits c d high low tail rest m k
              (hex-from_pairs fuel rest tail (omega (arith, l)) j))
    ]
  ]
]

-- A text is either accepted, and is then the printed form of the result, with capitals for some
-- letters, or refused, and then the output is the empty digest.
pub hex-from_hex :
    (text : Bytes)
    → (((from_hex text).0 ≡ true) × (hex (from_hex text).1 ≡ map lower text))
      ⊎ (((from_hex text).0 ≡ false) × ((from_hex text).1 ≡ no_hash))
unfolding from_hex
hex-from_hex text = elim (Bool-cases (length text == 64)) [
  | inr b ↦ rw (from_hex, b) (inr (refl, refl))
  | inl b ↦ elim (Option-cases (from_pairs text)) [
    | inl m ↦ rw (from_hex, b, m) (inr (refl, refl))
    | inr (bs, m) ↦
        rw (from_hex, b, m) (inl (refl, hex-from_pairs (length text) text bs (omega arith) m))
  ]
]
