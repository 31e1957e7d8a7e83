-- ===== src/Hash/Tests.antt =====
-- Tests of the text of digests, with the theorems' witnesses.
use puc.Base.{◌≡◌, refl, ◌⊎◌, true, false, [], ◌∷◌, map, arith}
use puc.Hash.{hex, no_hash, from_hex}
use puc.Hash.Hex.{lower, from_hex-hex, hex-from_hex}

hex_of_two : hex (171 ∷ 9 ∷ []) ≡ b'a' ∷ b'b' ∷ b'0' ∷ b'9' ∷ []
unfolding hex
hex_of_two = refl

from_hex-hex_example : from_hex (hex no_hash) ≡ (true, no_hash)
from_hex-hex_example = from_hex-hex no_hash refl (ground arith)

hex-from_hex_example :
    (((from_hex (hex no_hash)).0 ≡ true)
      × (hex (from_hex (hex no_hash)).1 ≡ map lower (hex no_hash)))
    ⊎ (((from_hex (hex no_hash)).0 ≡ false) × ((from_hex (hex no_hash)).1 ≡ no_hash))
hex-from_hex_example = hex-from_hex (hex no_hash)
