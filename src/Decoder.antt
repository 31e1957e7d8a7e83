-- ===== src/Decoder.antt =====
-- puc-cli/tui/terminal/decoder.cpp: the helpers of the terminal's decoder. A byte is a number below
-- 256; `& 0xc0` compares the top two bits, `& 0x3f` is a remainder, and `(c << 6) | d` with `d` below
-- 64 is a product and a sum. The bits of a code point stay below 32.
pub mod Scalars
pub mod Strict
pub mod Keys
pub mod Fields
mod Tests
use puc.Base.{
  ℕ, zero, suc, ◌+◌, ◌-◌, ◌*◌, ◌/◌, ◌%◌, ◌^◌, ◌≤◌, ◌<◌, ◌≡◌, refl, sym, ap, ap₂, subst, ◌∙◌, ◌≢◌,
  ◌↔◌, ◌⊎◌, inl, inr, Bool, true, false, not, ◌&&◌, ◌||◌, Option, none, some, List, [], ◌∷◌, ◌++◌,
  map, reverse, append-nil, append_assoc, reverse-append, reverse-cons, arith, ltb, leb, ◌==◌,
  if◌then◌else◌, ltb→lt, lt→ltb, leb→le, ==_iff, Bool-cases, Option-cases, and-eq-true, length,
  get_elem?, get_or, set, take, drop, concat, All, length-append, length-reverse, length-set,
  get_or-set_self, get_or-set_ne, get_or-append_left, get_or-append_length, All-append, All-map,
  lookup, contains, emplace, modify, Eq, lookup-append, lookup-emplace, lookup-modify,
}
use puc.Base.Sorting.{count, sort, count-append, count-sort, length-sort}
use puc.Base.Bytes.{Bytes, bytes_eq, bytes_eq_refl, bytes_eq_iff, bytes}
use puc.Utf8.Encoding.{is_scalar}

abbrev pub size_max : ℕ
size_max = 2 ^ 64 - 1

unfoldable pub maximum_osc52_sequence_bytes : ℕ → ℕ
maximum_osc52_sequence_bytes decoded_bytes =
    if ltb ((size_max - 2) / 3) decoded_bytes
    then size_max
    else let encoded = ((decoded_bytes + 2) % 2 ^ 64 / 3 * 4) % 2 ^ 64 in
      if ltb (size_max - 24) encoded then size_max else (encoded + 24) % 2 ^ 64

-- `Utf8Result`, with the code point and the length of a valid one.
pub data Utf8Result : Type 0 where
  valid : ℕ → ℕ → Utf8Result
  incomplete invalid : Utf8Result

-- What the first byte announces: the number of bytes behind it, and the first bits.
unfoldable pub announced : ℕ → Option (ℕ × ℕ)
announced first =
    if leb 0xc2 first && leb first 0xdf
    then some (1, first % 32)
    else if leb 0xe0 first && leb first 0xef
    then some (2, first % 16)
    else if leb 0xf0 first && leb first 0xf4
    then some (3, first % 8)
    else none

-- The first loop, over the bytes that are there.
unfoldable pub all_continue : ℕ → Bytes → Bool
all_continue zero text = true
all_continue (suc n) [] = true
all_continue (suc n) (b ∷ bs) = let rest = all_continue n bs in b / 64 == 2 && rest

-- The second loop.
unfoldable pub assemble : ℕ → ℕ → Bytes → ℕ
assemble zero value text = value
assemble (suc n) value [] = value
assemble (suc n) value (b ∷ bs) = assemble n (value * 64 + b % 64) bs

-- The second bytes that make an overlong form, a surrogate or too large a code point.
unfoldable pub is_refused : ℕ → ℕ → Bool
is_refused first second =
    (first == 0xe0 && ltb second 0xa0)
    || (first == 0xed && leb 0xa0 second)
    || (first == 0xf0 && ltb second 0x90)
    || (first == 0xf4 && leb 0x90 second)

unfoldable pub decode_more : ℕ → ℕ → ℕ → Bytes → Utf8Result
decode_more first behind value rest =
    let codepoint = assemble behind value rest in
    if all_continue behind rest
    then if ltb (length rest) behind
      then incomplete
      else if is_refused first (get_or rest 0 0)
      then invalid
      else if is_scalar codepoint
      then valid codepoint (behind + 1)
      else invalid
    else invalid

unfoldable pub decode_utf8 : Bytes → Utf8Result
decode_utf8 [] = incomplete
decode_utf8 (first ∷ rest) = if leb first 0x7f then valid first 1 else elim (announced first) [
  | none ↦ invalid
  | some (behind, value) ↦ decode_more first behind value rest
]

unfoldable pub append_utf8 : ℕ → Bytes → Bytes
append_utf8 c output =
    if leb c 0x7f
    then output ++ (c ∷ [])
    else if leb c 0x7ff
    then output ++ ((0xc0 + c / 64) ∷ (0x80 + c % 64) ∷ [])
    else if leb c 0xffff
    then output ++ ((0xe0 + c / 4096) ∷ (0x80 + c / 64 % 64) ∷ (0x80 + c % 64) ∷ [])
    else output
      ++ ((0xf0 + c / 262144)
          ∷ (0x80 + c / 4096 % 64)
          ∷ (0x80 + c / 64 % 64)
          ∷ (0x80 + c % 64)
          ∷ [])

-- The text up to the next delimiter, and what stands behind the delimiter, if there is one.
unfoldable pub cut : ℕ → Bytes → Bytes × Option Bytes
cut delimiter [] = ([], none)
cut delimiter (c ∷ cs) =
    let r = cut delimiter cs in if c == delimiter then ([], some cs) else (c ∷ r.0, r.1)

-- The loop of `split_fields`; the first argument is the number of fields that are left.
unfoldable pub split_from : ℕ → ℕ → Bytes → Option (List Bytes)
split_from zero delimiter text = none
split_from (suc n) delimiter text =
    let s = cut delimiter text in
    elim s.1 [
      | none ↦ some (s.0 ∷ [])
      | some rest ↦ elim (split_from n delimiter rest) [
        | none ↦ none
        | some fields ↦ some (s.0 ∷ fields)
      ]
    ]

-- The fields, or none for a false answer; no caller reads the fields of that.
unfoldable pub split_fields : ℕ → ℕ → Bytes → Option (List Bytes)
split_fields maximum delimiter [] = some []
split_fields maximum delimiter (c ∷ cs) = split_from maximum delimiter (c ∷ cs)
