-- ===== src/Utf8/Encoding.antt =====
-- The encoding of code points as UTF-8, the reference for `is_valid`.
use puc.Base.{ℕ, ◌+◌, ◌/◌, ◌%◌, ◌≡◌, Bool, true, not, ◌&&◌, List, [], ◌∷◌, ◌++◌, leb, if◌then◌else◌}
use puc.Base.Bytes.{Bytes}

-- A Unicode scalar value.
abbrev pub is_scalar : ℕ → Bool
is_scalar c = leb c 0x10ffff && not (leb 0xd800 c && leb c 0xdfff)

abbrev pub IsScalar : ℕ → Type 0
IsScalar c = is_scalar c ≡ true

unfoldable pub encode : ℕ → Bytes
encode c =
    if leb c 0x7f
    then c ∷ []
    else if leb c 0x7ff
    then (0xc0 + c / 64) ∷ (0x80 + c % 64) ∷ []
    else if leb c 0xffff
    then (0xe0 + c / 4096) ∷ (0x80 + c / 64 % 64) ∷ (0x80 + c % 64) ∷ []
    else (0xf0 + c / 262144) ∷ (0x80 + c / 4096 % 64) ∷ (0x80 + c / 64 % 64) ∷ (0x80 + c % 64) ∷ []

unfoldable pub encode_all : List ℕ → Bytes
encode_all [] = []
encode_all (c ∷ cs) = encode c ++ encode_all cs
