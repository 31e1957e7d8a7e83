-- ===== src/Utf8/Tests.antt =====
-- Tests of the validation, and the theorem's witness.
use puc.Base.{◌≡◌, refl, ◌↔◌, true, false, [], ◌∷◌}
use puc.Base.Bytes.{Bytes}
use puc.Utf8.{is_valid, is_valid_from, multibyte, lead, continuations}
use puc.Utf8.Encoding.{encode, encode_all}
use puc.Utf8.Correct.{Decodes, is_valid-Decodes}

-- The letter A, a euro sign and a musical clef.
abbrev sample : Bytes
sample = 0x41 ∷ 0xe2 ∷ 0x82 ∷ 0xac ∷ 0xf0 ∷ 0x9d ∷ 0x84 ∷ 0x9e ∷ []

abbrev overlong : Bytes
overlong = 0xe0 ∷ 0x80 ∷ 0x80 ∷ []

abbrev surrogate : Bytes
surrogate = 0xed ∷ 0xa0 ∷ 0x80 ∷ []

accepts_sample : is_valid sample ≡ true
unfolding is_valid is_valid_from multibyte lead continuations
accepts_sample = refl

rejects_overlong : is_valid overlong ≡ false
unfolding is_valid is_valid_from multibyte lead continuations
rejects_overlong = refl

rejects_surrogate : is_valid surrogate ≡ false
unfolding is_valid is_valid_from multibyte lead continuations
rejects_surrogate = refl

encodes_sample : sample ≡ encode_all (0x41 ∷ 0x20ac ∷ 0x1d11e ∷ [])
unfolding encode_all encode
encodes_sample = refl

is_valid-Decodes_example : (is_valid sample ≡ true) ↔ Decodes sample
is_valid-Decodes_example = is_valid-Decodes sample
