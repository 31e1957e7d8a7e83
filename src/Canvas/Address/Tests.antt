-- ===== src/Canvas/Address/Tests.antt =====
-- Addresses printed and parsed.
use puc.Base.{◌≡◌, refl, [], ◌∷◌, ◌++◌, some, none, arith}
use puc.Base.Bytes.{bytes}
use puc.Canvas.Address.{
  TurnAddress, numeric, alphabetic, component, parse, parse_from, parse_component, segment, string,
  from_chars, decimal_value,
}
use puc.Canvas.Address.Valid.{parse-IsValidAddress}
use puc.Canvas.Address.RoundTrip.{IsValidAddress, parse-string, parse-trailing_dot}

-- 1.2.aa
abbrev reply : TurnAddress
reply = component numeric 1 ∷ component numeric 2 ∷ component alphabetic 27 ∷ []

reply_text : string reply ≡ bytes "1.2.aa"
unfolding string
reply_text = refl

leading_zero : parse (bytes "01.2") ≡ none
unfolding parse parse_from parse_component segment
leading_zero = refl

reply-IsValidAddress : IsValidAddress reply
reply-IsValidAddress = record { nonempty = λ e. cc; components = omega arith }

parse-string_example : parse (string reply) ≡ some reply
parse-string_example = parse-string reply reply-IsValidAddress

parse-trailing_dot_example : parse (string reply ++ (b'.' ∷ [])) ≡ some reply
parse-trailing_dot_example = parse-trailing_dot reply reply-IsValidAddress

reads_one : parse (b'1' ∷ []) ≡ some (component numeric 1 ∷ [])
unfolding parse parse_from parse_component segment from_chars decimal_value
reads_one = refl

parse-IsValidAddress_example : IsValidAddress (component numeric 1 ∷ [])
parse-IsValidAddress_example = parse-IsValidAddress (b'1' ∷ []) (component numeric 1 ∷ []) reads_one
