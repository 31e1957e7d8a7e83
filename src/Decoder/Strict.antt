-- ===== src/Decoder/Strict.antt =====
-- `decode_utf8` of puc-cli/tui/terminal/decoder.cpp accepts nothing but the encoding of a scalar value.
use puc.Base.{
  ℕ, ◌+◌, ◌*◌, ◌/◌, ◌%◌, ◌≤◌, ◌≡◌, refl, sym, ap, subst, ◌∙◌, inl, inr, true, false, ◌&&◌, [], ◌∷◌,
  arith, ltb, leb, leb→le, Bool-cases, length, get_or, take,
}
use puc.Base.Bytes.{Bytes}
use puc.Utf8.Encoding.{is_scalar, IsScalar}
use puc.Decoder.{
  valid, announced, all_continue, assemble, is_refused, decode_more, decode_utf8, append_utf8,
}

two_again :
    (a b : ℕ)
    → 0xc2 ≤ a
    → a ≤ 0xdf
    → b / 64 ≡ 2
    → append_utf8 (a % 32 * 64 + b % 64) [] ≡ a ∷ b ∷ []
unfolding append_utf8
two_again a b h l e = ground (arith, h, l, e)

three_again :
    (a b c : ℕ)
    → 0xe0 ≤ a
    → a ≤ 0xef
    → b / 64 ≡ 2
    → c / 64 ≡ 2
    → is_refused a b ≡ false
    → append_utf8 ((a % 16 * 64 + b % 64) * 64 + c % 64) [] ≡ a ∷ b ∷ c ∷ []
unfolding append_utf8 is_refused
three_again a b c h l e f r = ground (arith, h, l, e, f, r)

four_again :
    (a b c d : ℕ)
    → 0xf0 ≤ a
    → a ≤ 0xf4
    → b / 64 ≡ 2
    → c / 64 ≡ 2
    → d / 64 ≡ 2
    → is_refused a b ≡ false
    → append_utf8 (((a % 8 * 64 + b % 64) * 64 + c % 64) * 64 + d % 64) [] ≡ a ∷ b ∷ c ∷ d ∷ []
unfolding append_utf8 is_refused
four_again a b c d h l e f g r = ground (arith, h, l, e, f, g, r)

-- What `decode_more` has checked when it accepts.
record Accepts (first behind value : ℕ) (rest : Bytes) (c n : ℕ) : Type 0 where
  continue : all_continue behind rest ≡ true
  present : behind ≤ length rest
  allowed : is_refused first (get_or rest 0 0) ≡ false
  scalar : IsScalar (assemble behind value rest)
  same : assemble behind value rest ≡ c
  size : behind + 1 ≡ n

valid_same : (c d m n : ℕ) → valid c m ≡ valid d n → (c ≡ d) × (m ≡ n)
valid_same c d m n e = let first : c ≡ d = cc in let second : m ≡ n = cc in (first, second)

decode_more-Accepts :
    (first behind value : ℕ) (rest : Bytes) (c n : ℕ)
    → decode_more first behind value rest ≡ valid c n
    → Accepts first behind value rest c n
unfolding decode_more
decode_more-Accepts first behind value rest c n e = elim (Bool-cases (all_continue behind rest)) [
  | inr p ↦ absurd (ground (arith, p, e))
  | inl p ↦ elim (Bool-cases (ltb (length rest) behind)) [
    | inl q ↦ absurd (ground (arith, p, q, e))
    | inr q ↦ elim (Bool-cases (is_refused first (get_or rest 0 0))) [
      | inl r ↦ absurd (ground (arith, p, q, r, e))
      | inr r ↦ elim (Bool-cases (is_scalar (assemble behind value rest))) [
        | inr s ↦ absurd (ground (arith, p, q, r, s, e))
        | inl s ↦
            let v =
              valid_same (assemble behind value rest) c (behind + 1) n
                (ground (arith, p, q, r, s, e)) in
            record {
              continue = p;
              present = ground (arith, q);
              allowed = r;
              scalar = s;
              same = v.0;
              size = v.1;
            }
      ]
    ]
  ]
]

-- The bytes that were read are the encoding.
abbrev pub IsEncoded : Bytes → ℕ → ℕ → Type 0
IsEncoded text c n = IsScalar c × (take n text ≡ append_utf8 c [])

more_two :
    (a : ℕ) (rest : Bytes) (c n : ℕ)
    → 0xc2 ≤ a
    → a ≤ 0xdf
    → Accepts a 1 (a % 32) rest c n
    → IsEncoded (a ∷ rest) c n
unfolding all_continue assemble
more_two a [] c n h l s = absurd (omega (arith, s.present))
more_two a (b ∷ rest) c n h l s =
    let e : b / 64 ≡ 2 = ground (arith, s.continue) in
    (
      subst IsScalar s.same s.scalar,
      ap (λ (m : ℕ). take m (a ∷ b ∷ rest)) (sym s.size)
          ∙ sym (two_again a b h l e)
          ∙ ap (λ (v : ℕ). append_utf8 v []) s.same,
    )

more_three :
    (a : ℕ) (rest : Bytes) (c n : ℕ)
    → 0xe0 ≤ a
    → a ≤ 0xef
    → Accepts a 2 (a % 16) rest c n
    → IsEncoded (a ∷ rest) c n
unfolding all_continue assemble
more_three a [] c n h l s = absurd (omega (arith, s.present))
more_three a (b ∷ []) c n h l s = absurd (omega (arith, s.present))
more_three a (b ∷ d ∷ rest) c n h l s =
    let e : b / 64 ≡ 2 = ground (arith, s.continue) in
    let f : d / 64 ≡ 2 = ground (arith, s.continue) in
    (
      subst IsScalar s.same s.scalar,
      ap (λ (m : ℕ). take m (a ∷ b ∷ d ∷ rest)) (sym s.size)
          ∙ sym (three_again a b d h l e f s.allowed)
          ∙ ap (λ (v : ℕ). append_utf8 v []) s.same,
    )

more_four :
    (a : ℕ) (rest : Bytes) (c n : ℕ)
    → 0xf0 ≤ a
    → a ≤ 0xf4
    → Accepts a 3 (a % 8) rest c n
    → IsEncoded (a ∷ rest) c n
unfolding all_continue assemble
more_four a [] c n h l s = absurd (omega (arith, s.present))
more_four a (b ∷ []) c n h l s = absurd (omega (arith, s.present))
more_four a (b ∷ d ∷ []) c n h l s = absurd (omega (arith, s.present))
more_four a (b ∷ d ∷ g ∷ rest) c n h l s =
    let e : b / 64 ≡ 2 = ground (arith, s.continue) in
    let f : d / 64 ≡ 2 = ground (arith, s.continue) in
    let k : g / 64 ≡ 2 = ground (arith, s.continue) in
    (
      subst IsScalar s.same s.scalar,
      ap (λ (m : ℕ). take m (a ∷ b ∷ d ∷ g ∷ rest)) (sym s.size)
          ∙ sym (four_again a b d g h l e f k s.allowed)
          ∙ ap (λ (v : ℕ). append_utf8 v []) s.same,
    )

alone : (a : ℕ) → a ≤ 0x7f → a ∷ [] ≡ append_utf8 a []
unfolding append_utf8
alone a l =
    let small : leb a 0x7f ≡ true = ground (arith, l) in
    let e : append_utf8 a [] ≡ a ∷ [] = rw (append_utf8, small) refl in sym e

more_one :
    (a : ℕ) (rest : Bytes) (c n : ℕ) → a ≤ 0x7f → valid a 1 ≡ valid c n → IsEncoded (a ∷ rest) c n
unfolding append_utf8
more_one a rest c n l e =
    let v = valid_same a c 1 n e in
    (
      subst IsScalar v.0 (ground (arith, l)),
      ap (λ (m : ℕ). take m (a ∷ rest)) (sym v.1)
          ∙ alone a l
          ∙ ap (λ (x : ℕ). append_utf8 x []) v.0,
    )

-- A text that decodes to a code point starts with the encoding of it, of the length that is given,
-- and the code point is a scalar value.
pub decode_utf8-IsEncoded :
    (text : Bytes) (c n : ℕ) → decode_utf8 text ≡ valid c n → IsEncoded text c n
unfolding decode_utf8 announced
decode_utf8-IsEncoded [] c n e = absurd (ground (arith, e))
decode_utf8-IsEncoded (a ∷ rest) c n e = elim (Bool-cases (leb a 0x7f)) [
  | inl p ↦ more_one a rest c n (leb→le a 0x7f p) (ground (arith, p, e))
  | inr p ↦ elim (Bool-cases (leb 0xc2 a && leb a 0xdf)) [
    | inl q ↦
        more_two a rest c n (ground (arith, q)) (ground (arith, q))
          (decode_more-Accepts a 1 (a % 32) rest c n (ground (arith, p, q, e)))
    | inr q ↦ elim (Bool-cases (leb 0xe0 a && leb a 0xef)) [
      | inl r ↦
          more_three a rest c n (ground (arith, r)) (ground (arith, r))
            (decode_more-Accepts a 2 (a % 16) rest c n (ground (arith, p, q, r, e)))
      | inr r ↦ elim (Bool-cases (leb 0xf0 a && leb a 0xf4)) [
        | inl s ↦
            more_four a rest c n (ground (arith, s)) (ground (arith, s))
              (decode_more-Accepts a 3 (a % 8) rest c n (ground (arith, p, q, r, s, e)))
        | inr s ↦ absurd (ground (arith, p, q, r, s, e))
      ]
    ]
  ]
]
