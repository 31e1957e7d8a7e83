-- ===== src/Decoder/Keys.antt =====
-- The keys of puc-cli/tui/terminal/decoder.cpp, with puc-cli/tui/terminal/event.hpp. A named key is
-- the number of its enumerator, as the casts of the code take it.
use puc.Base.{
  ℕ, ◌+◌, ◌-◌, ◌≤◌, ◌<◌, ◌≡◌, refl, sym, subst, ◌∙◌, ◌⊎◌, inl, inr, false, not, ◌&&◌, ◌||◌, Option,
  none, some, arith, leb, ◌==◌, if◌then◌else◌, Bool-cases, Option-cases,
}
use mathlib.Core.Option.{some-injective}
use puc.Utf8.Encoding.{is_scalar, IsScalar}

abbrev pub NamedKey : Type 0
NamedKey = ℕ

abbrev escape_key : NamedKey
escape_key = 0

abbrev enter_key : NamedKey
enter_key = 1

abbrev tab_key : NamedKey
tab_key = 2

abbrev backspace_key : NamedKey
backspace_key = 3

abbrev insert_key : NamedKey
insert_key = 4

abbrev delete_key : NamedKey
delete_key = 5

abbrev left_key : NamedKey
left_key = 6

abbrev right_key : NamedKey
right_key = 7

abbrev up_key : NamedKey
up_key = 8

abbrev down_key : NamedKey
down_key = 9

abbrev page_up_key : NamedKey
page_up_key = 10

abbrev page_down_key : NamedKey
page_down_key = 11

abbrev home_key : NamedKey
home_key = 12

abbrev end_key : NamedKey
end_key = 13

abbrev caps_lock_key : NamedKey
caps_lock_key = 14

abbrev scroll_lock_key : NamedKey
scroll_lock_key = 15

abbrev num_lock_key : NamedKey
num_lock_key = 16

abbrev print_screen_key : NamedKey
print_screen_key = 17

abbrev pause_key : NamedKey
pause_key = 18

abbrev menu_key : NamedKey
menu_key = 19

abbrev f1_key : NamedKey
f1_key = 20

abbrev f13_key : NamedKey
f13_key = 32

abbrev keypad_0_key : NamedKey
keypad_0_key = 55

-- The last enumerator.
abbrev pub iso_level5_shift_key : NamedKey
iso_level5_shift_key = 110

-- The ranges behind the switch.
unfoldable pub kitty_range : ℕ → Option NamedKey
kitty_range code =
    if leb 57364 code && leb code 57375
    then some (f1_key + (code - 57364))
    else if leb 57376 code && leb code 57398
    then some (f13_key + (code - 57376))
    else if leb 57399 code && leb code 57454
    then some (keypad_0_key + (code - 57399))
    else none

unfoldable pub kitty_named_key : ℕ → Option NamedKey
kitty_named_key code =
    if code == 9
    then some tab_key
    else if code == 13
    then some enter_key
    else if code == 27
    then some escape_key
    else if code == 127
    then some backspace_key
    else if code == 57348
    then some insert_key
    else if code == 57349
    then some delete_key
    else if code == 57350
    then some left_key
    else if code == 57351
    then some right_key
    else if code == 57352
    then some up_key
    else if code == 57353
    then some down_key
    else if code == 57354
    then some page_up_key
    else if code == 57355
    then some page_down_key
    else if code == 57356
    then some home_key
    else if code == 57357
    then some end_key
    else if code == 57358
    then some caps_lock_key
    else if code == 57359
    then some scroll_lock_key
    else if code == 57360
    then some num_lock_key
    else if code == 57361
    then some print_screen_key
    else if code == 57362
    then some pause_key
    else if code == 57363
    then some menu_key
    else kitty_range code

-- A key: a named one, or a character.
pub data KeyCode : Type 0 where
  named : NamedKey → KeyCode
  character : ℕ → KeyCode

unfoldable pub protocol_key_code : ℕ → Option KeyCode
protocol_key_code code = elim (kitty_named_key code) [
  | some key ↦ some (named key)
  | none ↦
      if code == 0 || not (is_scalar code) || (leb 57344 code && leb code 63743)
      then none
      else some (character code)
]

-- The code of a key.
abbrev pub code_of_named : NamedKey → ℕ
code_of_named key =
    if key == escape_key
    then 27
    else if key == enter_key
    then 13
    else if key == tab_key
    then 9
    else if key == backspace_key
    then 127
    else 57344 + key

abbrev pub code_of : KeyCode → ℕ
code_of (named key) = code_of_named key
code_of (character c) = c

-- A named key is an enumerator; a character is a scalar value outside the private use of keys.
abbrev pub IsKey : KeyCode → Type 0
IsKey (named key) = key ≤ iso_level5_shift_key
IsKey (character c) = IsScalar c × (0 < c) × ((c < 57344) ⊎ (63743 < c))

range_code :
    (code : ℕ) (key : NamedKey)
    → kitty_range code ≡ some key
    → (key ≤ iso_level5_shift_key) × (code_of_named key ≡ code)
unfolding kitty_range
range_code code key e = ground (arith, e)

named_code :
    (code : ℕ) (key : NamedKey)
    → kitty_named_key code ≡ some key
    → (key ≤ iso_level5_shift_key) × (code_of_named key ≡ code)
unfolding kitty_named_key
named_code code key e = ground (arith, e, range_code code key)

character-IsKey :
    (code : ℕ)
    → (code == 0 || not (is_scalar code) || (leb 57344 code && leb code 63743)) ≡ false
    → IsKey (character code)
character-IsKey code b = (ground (arith, b), ground (arith, b), ground (arith, b))

protocol_code :
    (code : ℕ) (key : KeyCode)
    → protocol_key_code code ≡ some key
    → IsKey key × (code_of key ≡ code)
unfolding protocol_key_code
protocol_code code key e = elim (Option-cases (kitty_named_key code)) [
  | inr (k, m) ↦
      let r = named_code code k m in
      subst (λ (x : KeyCode). IsKey x × (code_of x ≡ code))
        (some-injective (named k) key (ground (arith, m, e))) (r.0, r.1)
  | inl m ↦
      elim (Bool-cases (code == 0 || not (is_scalar code) || (leb 57344 code && leb code 63743))) [
        | inl b ↦ absurd (ground (arith, m, b, e))
        | inr b ↦
            subst (λ (x : KeyCode). IsKey x × (code_of x ≡ code))
              (some-injective (character code) key (ground (arith, m, b, e)))
              (character-IsKey code b, refl)
      ]
]

-- A key that a code stands for is a named key of the enumeration or a scalar value outside the private
-- use of keys, and two codes that stand for the same key are the same.
pub protocol_key_code-IsKey :
    (a b : ℕ) (key : KeyCode)
    → protocol_key_code a ≡ some key
    → protocol_key_code b ≡ some key
    → IsKey key × (a ≡ b)
protocol_key_code-IsKey a b key e f =
    ((protocol_code a key e).0, sym (protocol_code a key e).1 ∙ (protocol_code b key f).1)
