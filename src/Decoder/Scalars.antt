-- ===== src/Decoder/Scalars.antt =====
-- Scalar values and sizes of puc-cli/tui/terminal/decoder.cpp.
use puc.Base.{
  ℕ, ◌+◌, ◌-◌, ◌*◌, ◌/◌, ◌%◌, ◌^◌, ◌≤◌, ◌<◌, ◌≡◌, refl, sym, ap, subst, ◌∙◌, ◌⊎◌, inl, inr, false,
  [], ◌∷◌, ◌++◌, arith, ltb, leb, ltb→lt, leb→le, Bool-cases, length,
}
use puc.Base.Bytes.{Bytes}
use puc.Utf8.Encoding.{IsScalar}
use puc.Decoder.{
  size_max, maximum_osc52_sequence_bytes, valid, announced, all_continue, assemble, is_refused,
  decode_more, decode_utf8, append_utf8,
}

unwrapped :
    (decoded : ℕ)
    → decoded ≤ (size_max - 2) / 3
    → maximum_osc52_sequence_bytes decoded ≡ (decoded + 2) / 3 * 4 + 24
unfolding maximum_osc52_sequence_bytes
unwrapped decoded small =
    let sum : (decoded + 2) % 2 ^ 64 ≡ decoded + 2 = omega (arith, small) in
    let product : ((decoded + 2) / 3 * 4) % 2 ^ 64 ≡ (decoded + 2) / 3 * 4 = omega (arith, small) in
    let total : ((decoded + 2) / 3 * 4 + 24) % 2 ^ 64 ≡ (decoded + 2) / 3 * 4 + 24 =
      omega (arith, small) in
    let first : ltb ((size_max - 2) / 3) decoded ≡ false = ground (arith, small) in
    let second : ltb (size_max - 24) ((decoded + 2) / 3 * 4) ≡ false = ground (arith, small) in
    rw (maximum_osc52_sequence_bytes, first, sum, product, second, total) refl

-- The ceiling is the size of the encoded text and its framing, without a wrap, for all sizes up to a
-- third of the range; above them it is the largest size.
pub maximum_osc52-IsCeiling :
    (decoded : ℕ)
    → ((decoded ≤ (size_max - 2) / 3)
        × (maximum_osc52_sequence_bytes decoded ≡ (decoded + 2) / 3 * 4 + 24)
        × (maximum_osc52_sequence_bytes decoded ≤ size_max))
      ⊎ (((size_max - 2) / 3 < decoded) × (maximum_osc52_sequence_bytes decoded ≡ size_max))
unfolding maximum_osc52_sequence_bytes
maximum_osc52-IsCeiling decoded = elim (Bool-cases (ltb ((size_max - 2) / 3) decoded)) [
  | inl b ↦ rw (maximum_osc52_sequence_bytes, b) (inr (ltb→lt _ decoded b, refl))
  | inr b ↦
      let small : decoded ≤ (size_max - 2) / 3 = ground (arith, b) in
      let e = unwrapped decoded small in
      inl (small, e, subst (λ (n : ℕ). n ≤ size_max) (sym e) (omega (arith, small)))
]

one_byte : (c : ℕ) (rest : Bytes) → c ≤ 0x7f → decode_utf8 (c ∷ rest) ≡ valid c 1
unfolding decode_utf8
one_byte c rest h = ground (arith, h)

two_bytes :
    (a b : ℕ) (rest : Bytes)
    → 0xc2 ≤ a
    → a ≤ 0xdf
    → b / 64 ≡ 2
    → decode_utf8 (a ∷ b ∷ rest) ≡ valid (a % 32 * 64 + b % 64) 2
unfolding decode_utf8 announced decode_more all_continue assemble is_refused
two_bytes a b rest h l e = ground (arith, h, l, e)

three_bytes :
    (a b c : ℕ) (rest : Bytes)
    → 0xe0 ≤ a
    → a ≤ 0xef
    → b / 64 ≡ 2
    → c / 64 ≡ 2
    → is_refused a b ≡ false
    → IsScalar ((a % 16 * 64 + b % 64) * 64 + c % 64)
    → decode_utf8 (a ∷ b ∷ c ∷ rest) ≡ valid ((a % 16 * 64 + b % 64) * 64 + c % 64) 3
unfolding decode_utf8 announced decode_more all_continue assemble
three_bytes a b c rest h l e f r s = ground (arith, h, l, e, f, r, s)

four_bytes :
    (a b c d : ℕ) (rest : Bytes)
    → 0xf0 ≤ a
    → a ≤ 0xf4
    → b / 64 ≡ 2
    → c / 64 ≡ 2
    → d / 64 ≡ 2
    → is_refused a b ≡ false
    → IsScalar (((a % 8 * 64 + b % 64) * 64 + c % 64) * 64 + d % 64)
    → decode_utf8 (a ∷ b ∷ c ∷ d ∷ rest)
      ≡ valid (((a % 8 * 64 + b % 64) * 64 + c % 64) * 64 + d % 64) 4
unfolding decode_utf8 announced decode_more all_continue assemble
four_bytes a b c d rest h l e f g r s = ground (arith, h, l, e, f, g, r, s)

join_two : (c : ℕ) → c ≤ 0x7ff → (0xc0 + c / 64) % 32 * 64 + (0x80 + c % 64) % 64 ≡ c
join_two c h = omega (arith, h)

join_three :
    (c : ℕ)
    → c ≤ 0xffff
    → ((0xe0 + c / 4096) % 16 * 64 + (0x80 + c / 64 % 64) % 64) * 64 + (0x80 + c % 64) % 64 ≡ c
join_three c h = omega (arith, h)

join_four :
    (c : ℕ)
    → c ≤ 0x10ffff
    → (((0xf0 + c / 262144) % 8 * 64 + (0x80 + c / 4096 % 64) % 64) * 64
            + (0x80 + c / 64 % 64) % 64)
          * 64
        + (0x80 + c % 64) % 64
      ≡ c
join_four c h = omega (arith, h)

allowed_three :
    (c : ℕ)
    → 0x7ff < c
    → c ≤ 0xffff
    → IsScalar c
    → is_refused (0xe0 + c / 4096) (0x80 + c / 64 % 64) ≡ false
unfolding is_refused
allowed_three c l h s = ground (arith, l, h, s)

allowed_four :
    (c : ℕ)
    → 0xffff < c
    → c ≤ 0x10ffff
    → is_refused (0xf0 + c / 262144) (0x80 + c / 4096 % 64) ≡ false
unfolding is_refused
allowed_four c l h = ground (arith, l, h)

-- A scalar value that is appended, with any bytes behind it, decodes to itself with its length.
pub decode_utf8-append_utf8 :
    (c : ℕ) (rest : Bytes)
    → IsScalar c
    → decode_utf8 (append_utf8 c [] ++ rest) ≡ valid c (length (append_utf8 c []))
unfolding append_utf8
decode_utf8-append_utf8 c rest h = elim (Bool-cases (leb c 0x7f)) [
  | inl p ↦ rw (append_utf8, p) (one_byte c rest (leb→le c 0x7f p))
  | inr p ↦ elim (Bool-cases (leb c 0x7ff)) [
    | inl q ↦
        let low : 0x7f < c = ground (arith, p) in
        let high : c ≤ 0x7ff = leb→le c 0x7ff q in
        rw (append_utf8, p, q)
          (two_bytes (0xc0 + c / 64) (0x80 + c % 64) rest (omega (arith, low)) (omega (arith, high))
              (omega arith)
            ∙ ap (λ (v : ℕ). valid v 2) (join_two c high))
    | inr q ↦ elim (Bool-cases (leb c 0xffff)) [
      | inl r ↦
          let low : 0x7ff < c = ground (arith, q) in
          let high : c ≤ 0xffff = leb→le c 0xffff r in
          rw (append_utf8, p, q, r)
            (three_bytes (0xe0 + c / 4096) (0x80 + c / 64 % 64) (0x80 + c % 64) rest
                (omega (arith, low)) (omega (arith, high)) (omega arith) (omega arith)
                (allowed_three c low high h) (subst IsScalar (sym (join_three c high)) h)
              ∙ ap (λ (v : ℕ). valid v 3) (join_three c high))
      | inr r ↦
          let low : 0xffff < c = ground (arith, r) in
          let high : c ≤ 0x10ffff = ground (arith, h) in
          rw (append_utf8, p, q, r)
            (four_bytes (0xf0 + c / 262144) (0x80 + c / 4096 % 64) (0x80 + c / 64 % 64)
                (0x80 + c % 64) rest (omega (arith, low)) (omega (arith, high)) (omega arith)
                (omega arith) (omega arith) (allowed_four c low high)
                (subst IsScalar (sym (join_four c high)) h)
              ∙ ap (λ (v : ℕ). valid v 4) (join_four c high))
    ]
  ]
]
