-- ===== src/Decoder/Tests.antt =====
-- Tests of the decoder's helpers, with the theorems' witnesses.
use puc.Base.{ℕ, ◌+◌, ◌-◌, ◌*◌, ◌/◌, ◌≤◌, ◌<◌, ◌≡◌, refl, ◌⊎◌, some, [], ◌∷◌, ◌++◌, length}
use puc.Base.Bytes.{Bytes}
use puc.Decoder.{
  size_max, maximum_osc52_sequence_bytes, valid, incomplete, announced, all_continue, assemble,
  is_refused, decode_more, decode_utf8, append_utf8, cut, split_from, split_fields,
}
use puc.Decoder.Scalars.{maximum_osc52-IsCeiling, decode_utf8-append_utf8}
use puc.Decoder.Strict.{IsEncoded, decode_utf8-IsEncoded}
use puc.Decoder.Keys.{
  named, kitty_range, kitty_named_key, protocol_key_code, IsKey, protocol_key_code-IsKey,
}
use puc.Decoder.Fields.{IsSplit, split_fields-IsSplit}

-- The sign for the euro.
abbrev euro : Bytes
euro = 0xe2 ∷ 0x82 ∷ 0xac ∷ []

decodes_euro : decode_utf8 euro ≡ valid 0x20ac 3
unfolding decode_utf8 announced decode_more all_continue assemble is_refused
decodes_euro = refl

waits_for_more : decode_utf8 (0xe2 ∷ 0x82 ∷ []) ≡ incomplete
unfolding decode_utf8 announced decode_more all_continue assemble is_refused
waits_for_more = refl

maximum_osc52-IsCeiling_example :
    ((100 ≤ (size_max - 2) / 3)
      × (maximum_osc52_sequence_bytes 100 ≡ (100 + 2) / 3 * 4 + 24)
      × (maximum_osc52_sequence_bytes 100 ≤ size_max))
    ⊎ (((size_max - 2) / 3 < 100) × (maximum_osc52_sequence_bytes 100 ≡ size_max))
maximum_osc52-IsCeiling_example = maximum_osc52-IsCeiling 100

decode_utf8-append_utf8_example :
    decode_utf8 (append_utf8 0x20ac [] ++ (b'x' ∷ []))
    ≡ valid 0x20ac (length (append_utf8 0x20ac []))
decode_utf8-append_utf8_example = decode_utf8-append_utf8 0x20ac (b'x' ∷ []) refl

decode_utf8-IsEncoded_example : IsEncoded euro 0x20ac 3
decode_utf8-IsEncoded_example = decode_utf8-IsEncoded euro 0x20ac 3 decodes_euro

-- The text "1;2" with semicolons between its fields.
splits_two : split_fields 3 b';' (b'1' ∷ b';' ∷ b'2' ∷ []) ≡ some ((b'1' ∷ []) ∷ (b'2' ∷ []) ∷ [])
unfolding split_fields split_from cut
splits_two = refl

split_fields-IsSplit_example :
    IsSplit 3 b';' (b'1' ∷ b';' ∷ b'2' ∷ []) ((b'1' ∷ []) ∷ (b'2' ∷ []) ∷ [])
split_fields-IsSplit_example =
    split_fields-IsSplit 3 b';' (b'1' ∷ b';' ∷ b'2' ∷ []) ((b'1' ∷ []) ∷ (b'2' ∷ []) ∷ [])
      splits_two

-- The code of the key F1.
abbrev f1_code : ℕ
f1_code = 57364

reads_f1 : protocol_key_code f1_code ≡ some (named 20)
unfolding protocol_key_code kitty_named_key kitty_range
reads_f1 = refl

protocol_key_code-IsKey_example : IsKey (named 20) × (f1_code ≡ f1_code)
protocol_key_code-IsKey_example =
    protocol_key_code-IsKey f1_code f1_code (named 20) reads_f1 reads_f1
