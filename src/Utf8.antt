-- ===== src/Utf8.antt =====
-- utils/utf8/utf8.cpp: the validation of UTF-8 text. A byte is a number; `& 0x1f`, `& 0x0f` and
-- `& 0x07` are remainders, `& 0xc0` compares the top two bits, and `(c << 6) | d` with `d` below 64
-- is a product and a sum. `Encoding` holds the encoding it is compared with.
mod Tests
pub mod Encoding
pub mod Correct
use puc.Base.{
  ℕ, zero, suc, ◌+◌, ◌-◌, ◌*◌, ◌/◌, ◌%◌, ◌^◌, ◌≤◌, ◌<◌, ◌≡◌, refl, sym, ap, ap₂, subst, ◌∙◌, ◌≢◌,
  ◌↔◌, ◌⊎◌, inl, inr, Bool, true, false, not, ◌&&◌, ◌||◌, Option, none, some, List, [], ◌∷◌, ◌++◌,
  map, reverse, append-nil, append_assoc, reverse-append, reverse-cons, arith, ltb, leb, ◌==◌,
  if◌then◌else◌, ltb→lt, lt→ltb, leb→le, ==_iff, Bool-cases, Option-cases, and-eq-true, length,
  get_elem?, get_or, set, take, drop, concat, All, length-append, length-reverse, length-set,
  get_or-set_self, get_or-set_ne, get_or-append_left, get_or-append_length, All-append, All-map,
  lookup, contains, emplace, modify, Eq, lookup-append, lookup-emplace, lookup-modify,
}
use puc.Base.Sorting.{count, sort, count-append, count-sort, length-sort}
use puc.Base.Bytes.{Bytes, bytes_eq, bytes_eq_refl, bytes_eq_iff, bytes}

-- What the first byte announces: the number of bytes, the first bits and the least code point.
pub record Lead : Type 0 where
  pub size : ℕ
  pub codepoint : ℕ
  pub minimum : ℕ

unfoldable pub lead : ℕ → Option Lead
lead first =
    if leb 0xc2 first && leb first 0xdf
    then some (record { size = 2; codepoint = first % 32; minimum = 0x80 })
    else if leb 0xe0 first && leb first 0xef
    then some (record { size = 3; codepoint = first % 16; minimum = 0x800 })
    else if leb 0xf0 first && leb first 0xf4
    then some (record { size = 4; codepoint = first % 8; minimum = 0x10000 })
    else none

-- The loop over the continuation bytes: the code point and the text behind them.
unfoldable pub continuations : ℕ → ℕ → Bytes → Option (ℕ × Bytes)
continuations zero codepoint text = some (codepoint, text)
continuations (suc n) codepoint [] = none
continuations (suc n) codepoint (b ∷ bs) =
    let rest = continuations n (codepoint * 64 + b % 64) bs in if b / 64 == 2 then rest else none

abbrev pub is_rejected : ℕ → ℕ → Bool
is_rejected codepoint minimum =
    ltb codepoint minimum
    || ltb 0x10ffff codepoint
    || (leb 0xd800 codepoint && leb codepoint 0xdfff)

-- One round of the loop on a byte above 0x7f: the text behind the character, or none for a return.
unfoldable pub multibyte : ℕ → Bytes → Option (ℕ × Bytes)
multibyte first text = elim (lead first) [
  | none ↦ none
  | some l ↦
      if ltb (suc (length text)) l.size
      then none
      else elim (continuations (l.size - 1) l.codepoint text) [
        | none ↦ none
        | some r ↦ if is_rejected r.0 l.minimum then none else some r
      ]
]

-- Each round takes at least one byte, so the length of the text bounds the rounds.
unfoldable pub is_valid_from : ℕ → Bytes → Bool
is_valid_from fuel [] = true
is_valid_from zero (first ∷ text) = false
is_valid_from (suc fuel) (first ∷ text) =
    let one = is_valid_from fuel text in
    if leb first 0x7f
    then one
    else elim (multibyte first text) [ none ↦ false | some r ↦ is_valid_from fuel r.1 ]

unfoldable pub is_valid : Bytes → Bool
unfolding is_valid_from
is_valid text = is_valid_from (length text) text
