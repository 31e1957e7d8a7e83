-- ===== src/Utf8/Correct.antt =====
-- The validation of utils/utf8/utf8.cpp accepts exactly the encodings of scalar values.
use puc.Base.{
  ℕ, zero, suc, ◌+◌, ◌/◌, ◌%◌, ◌≤◌, ◌<◌, ◌≡◌, refl, sym, ap, subst, ◌∙◌, ◌↔◌, inl, inr, true, false,
  some, List, [], ◌∷◌, ◌++◌, arith, leb, Bool-cases, Option-cases, length, All, length-append,
}
use puc.Base.Bytes.{Bytes}
use puc.Utf8.{lead, continuations, multibyte, is_valid_from, is_valid}
use puc.Utf8.Encoding.{IsScalar, encode, encode_all}

-- A character of more than one byte is the encoding of a scalar value.
multibyte_sound :
    (first c : ℕ) (text rest : Bytes)
    → multibyte first text ≡ some (c, rest)
    → IsScalar c × (first ∷ text ≡ encode c ++ rest)
unfolding multibyte lead continuations encode
multibyte_sound first c [] rest h = ground arith
multibyte_sound first c (b ∷ []) rest h = ground arith
multibyte_sound first c (b ∷ d ∷ []) rest h = ground arith
multibyte_sound first c (b ∷ d ∷ e ∷ text) rest h = ground arith

-- A scalar value above the ASCII range is read back from its encoding.
multibyte_two :
    (c : ℕ) (rest : Bytes)
    → 0x7f < c
    → c ≤ 0x7ff
    → multibyte (0xc0 + c / 64) ((0x80 + c % 64) ∷ rest) ≡ some (c, rest)
unfolding multibyte lead continuations
multibyte_two c rest l u = ground arith

multibyte_three :
    (c : ℕ) (rest : Bytes)
    → IsScalar c
    → 0x7ff < c
    → c ≤ 0xffff
    → multibyte (0xe0 + c / 4096) ((0x80 + c / 64 % 64) ∷ (0x80 + c % 64) ∷ rest) ≡ some (c, rest)
unfolding multibyte lead continuations
multibyte_three c rest s l u = ground arith

multibyte_four :
    (c : ℕ) (rest : Bytes)
    → IsScalar c
    → 0xffff < c
    → multibyte
        (0xf0 + c / 262144)
        ((0x80 + c / 4096 % 64) ∷ (0x80 + c / 64 % 64) ∷ (0x80 + c % 64) ∷ rest)
      ≡ some (c, rest)
unfolding multibyte lead continuations
multibyte_four c rest s l = ground arith

ascii_sound : (c : ℕ) → leb c 0x7f ≡ true → IsScalar c × (encode c ≡ c ∷ [])
unfolding encode
ascii_sound c h = ground arith

ascii_step :
    (fuel c : ℕ) (rest : Bytes)
    → leb c 0x7f ≡ true
    → is_valid_from (suc fuel) (c ∷ rest) ≡ is_valid_from fuel rest
unfolding is_valid_from
ascii_step fuel c rest h = rw h refl

multibyte_step :
    (fuel first c : ℕ) (text rest : Bytes)
    → leb first 0x7f ≡ false
    → multibyte first text ≡ some (c, rest)
    → is_valid_from (suc fuel) (first ∷ text) ≡ is_valid_from fuel rest
unfolding is_valid_from
multibyte_step fuel first c text rest h m = rw (h, m) refl

-- One round of the loop reads one encoded scalar value.
is_valid_from-encode :
    (fuel c : ℕ) (rest : Bytes)
    → IsScalar c
    → is_valid_from (suc fuel) (encode c ++ rest) ≡ is_valid_from fuel rest
unfolding encode
is_valid_from-encode fuel c rest s = elim (Bool-cases (leb c 0x7f)) [
  | inl a ↦ rw (a, ascii_step fuel c rest a)
  | inr a ↦ elim (Bool-cases (leb c 0x7ff)) [
    | inl b ↦ rw (
      a,
      b,
      multibyte_step fuel _ c _ rest (ground arith)
          (multibyte_two c rest (ground arith) (ground arith)),
    )
    | inr b ↦ elim (Bool-cases (leb c 0xffff)) [
      | inl d ↦ rw (
        a,
        b,
        d,
        multibyte_step fuel _ c _ rest (ground arith)
            (multibyte_three c rest s (ground arith) (ground arith)),
      )
      | inr d ↦ rw (
        a,
        b,
        d,
        multibyte_step fuel _ c _ rest (ground arith) (multibyte_four c rest s (ground arith)),
      )
    ]
  ]
]

-- The number of rounds that a list of scalar values takes is at most the length of its encoding.
is_valid_from-encode_all :
    (cs : List ℕ) (fuel : ℕ)
    → All IsScalar cs
    → length cs ≤ fuel
    → is_valid_from fuel (encode_all cs) ≡ true
unfolding encode_all is_valid_from
is_valid_from-encode_all [] fuel s h = refl
is_valid_from-encode_all (c ∷ cs) zero s h = absurd (omega arith)
is_valid_from-encode_all (c ∷ cs) (suc fuel) s h =
    is_valid_from-encode fuel c (encode_all cs) s.0
    ∙ is_valid_from-encode_all cs fuel s.1 (omega arith)

length-encode : (c : ℕ) → 0 < length (encode c)
unfolding encode
length-encode c = ground arith

length-encode_all : (cs : List ℕ) → length cs ≤ length (encode_all cs)
unfolding encode_all
length-encode_all [] = omega arith
length-encode_all (c ∷ cs) =
    omega (arith, length-append (encode c) (encode_all cs), length-encode c, length-encode_all cs)

-- The scalar values that a text encodes.
abbrev pub Decodes : Bytes → Type 0
Decodes text = (cs : List ℕ) × All IsScalar cs × (text ≡ encode_all cs)

put_in_front :
    (c : ℕ) (text rest : Bytes) → IsScalar c → text ≡ encode c ++ rest → Decodes rest → Decodes text
unfolding encode_all
put_in_front c text rest s e d = (c ∷ d.0, (s, d.1), e ∙ ap (λ (t : Bytes). encode c ++ t) d.2)

is_valid_from_sound : (fuel : ℕ) (text : Bytes) → is_valid_from fuel text ≡ true → Decodes text
unfolding is_valid_from encode_all
is_valid_from_sound fuel [] h = ([], tt, refl)
is_valid_from_sound zero (first ∷ text) h = absurd cc
is_valid_from_sound (suc fuel) (first ∷ text) h = elim (Bool-cases (leb first 0x7f)) [
  | inl l ↦
      put_in_front first (first ∷ text) text (ascii_sound first l).0
        (ap (λ (t : Bytes). t ++ text) (sym (ascii_sound first l).1))
        (is_valid_from_sound fuel text (sym (ascii_step fuel first text l) ∙ h))
  | inr l ↦ elim (Option-cases (multibyte first text)) [
    | inl m ↦ absurd (ground arith)
    | inr (r, m) ↦
        let s = multibyte_sound first r.0 text r.1 m in
        put_in_front r.0 (first ∷ text) r.1 s.0 s.1
          (is_valid_from_sound fuel r.1 (sym (multibyte_step fuel first r.0 text r.1 l m) ∙ h))
  ]
]

-- `is_valid` accepts a text exactly when it is the encoding of a list of Unicode scalar values.
pub is_valid-Decodes : (text : Bytes) → (is_valid text ≡ true) ↔ Decodes text
unfolding is_valid
is_valid-Decodes text = (
  is_valid_from_sound (length text) text,
  λ d.
      ap (is_valid_from (length text)) d.2
      ∙ is_valid_from-encode_all d.0 (length text) d.1
          (subst (λ (t : Bytes). length d.0 ≤ length t) (sym d.2) (length-encode_all d.0)),
)
