-- ===== src/Hash.antt =====
-- utils/hash/sha256.cpp: the text of a digest; and canvas/canvas_id.cpp, which prints the identity of
-- a canvas in the same way. The digest itself is a call of Mbed TLS. A byte is a number below 256.
pub mod Hex
mod Tests
use puc.Base.{
  ℕ, zero, suc, ◌+◌, ◌-◌, ◌*◌, ◌/◌, ◌%◌, ◌^◌, ◌≤◌, ◌<◌, ◌≡◌, refl, sym, ap, ap₂, subst, ◌∙◌, ◌≢◌,
  ◌↔◌, ◌⊎◌, inl, inr, Bool, true, false, not, ◌&&◌, ◌||◌, Option, none, some, List, [], ◌∷◌, ◌++◌,
  map, reverse, append-nil, append_assoc, reverse-append, reverse-cons, arith, ltb, leb, ◌==◌,
  if◌then◌else◌, ltb→lt, lt→ltb, leb→le, ==_iff, Bool-cases, Option-cases, and-eq-true, length,
  get_elem?, get_or, set, take, drop, concat, All, length-append, length-reverse, length-set,
  get_or-set_self, get_or-set_ne, get_or-append_left, get_or-append_length, All-append, All-map,
  lookup, contains, emplace, modify, Eq, lookup-append, lookup-emplace, lookup-modify,
}
use puc.Base.Sorting.{count, sort, count-append, count-sort, length-sort}
use puc.Base.Bytes.{Bytes, bytes_eq, bytes_eq_refl, bytes_eq_iff, bytes}

-- The table of digits.
abbrev pub digit : ℕ → ℕ
digit n = if ltb n 10 then b'0' + n else b'a' + (n - 10)

-- The value of a digit; none is -1.
unfoldable pub hex_value : ℕ → Option ℕ
hex_value c =
    if leb b'0' c && leb c b'9'
    then some (c - b'0')
    else if leb b'a' c && leb c b'f'
    then some (c - b'a' + 10)
    else if leb b'A' c && leb c b'F'
    then some (c - b'A' + 10)
    else none

-- The loops of `hex` and `canvas_uuid_hex`, over the bytes.
unfoldable pub hex : Bytes → Bytes
hex [] = []
hex (b ∷ bs) = digit (b / 16) ∷ digit (b % 16) ∷ hex bs

-- The loop of `from_hex`, over two characters at a time; a text of odd length has no pairs.
unfoldable pub from_pairs : Bytes → Option Bytes
unfolding hex_value
from_pairs [] = some []
from_pairs (c ∷ []) = none
from_pairs (c ∷ d ∷ rest) =
    let tail = from_pairs rest in
    elim (hex_value c) [
      | none ↦ none
      | some high ↦ elim (hex_value d) [
        | none ↦ none
        | some low ↦ elim tail [
          | none ↦ none
          | some bytes ↦ some ((16 * high + low) % 2 ^ 8 ∷ bytes)
        ]
      ]
    ]

abbrev zero_bytes : ℕ → Bytes
zero_bytes zero = []
zero_bytes (suc n) = 0 ∷ zero_bytes n

abbrev pub no_hash : Bytes
no_hash = zero_bytes 32

-- `from_hex`: the answer, and the output.
unfoldable pub from_hex : Bytes → Bool × Bytes
unfolding from_pairs
from_hex text =
    if length text == 64
    then elim (from_pairs text) [ none ↦ (false, no_hash) | some bytes ↦ (true, bytes) ]
    else (false, no_hash)

-- `std::all_of` on the bytes.
unfoldable pub is_empty : Bytes → Bool
is_empty [] = true
is_empty (b ∷ bs) = b == 0 && is_empty bs

-- The marks of a random identity, on the 16 bytes that were read.
abbrev pub random_canvas_uuid : Bytes → Bytes
random_canvas_uuid bytes =
    let marked = set bytes 6 (get_or bytes 6 0 % 16 + 0x40) in
    set marked 8 (get_or marked 8 0 % 64 + 0x80)
