-- ===== src/Ipc/Name.antt =====
-- The names of channels: `valid_channel_name` of utils/ipc/channel.cpp, and the relative paths of
-- utils/ipc/channel_path.cpp.
pub mod Permitted
pub mod Segments
mod Tests
use puc.Base.{
  ℕ, zero, suc, ◌+◌, ◌-◌, ◌*◌, ◌/◌, ◌%◌, ◌^◌, ◌≤◌, ◌<◌, ◌≡◌, refl, sym, ap, ap₂, subst, ◌∙◌, ◌≢◌,
  ◌↔◌, ◌⊎◌, inl, inr, Bool, true, false, not, ◌&&◌, ◌||◌, Option, none, some, List, [], ◌∷◌, ◌++◌,
  map, reverse, append-nil, append_assoc, reverse-append, reverse-cons, arith, ltb, leb, ◌==◌,
  if◌then◌else◌, ltb→lt, lt→ltb, leb→le, ==_iff, Bool-cases, Option-cases, and-eq-true, length,
  get_elem?, get_or, set, take, drop, concat, All, length-append, length-reverse, length-set,
  get_or-set_self, get_or-set_ne, get_or-append_left, get_or-append_length, All-append, All-map,
  lookup, contains, emplace, modify, Eq, lookup-append, lookup-emplace, lookup-modify,
}
use puc.Base.Sorting.{count, sort, count-append, count-sort, length-sort}
use puc.Base.Bytes.{Bytes, bytes_eq, bytes_eq_refl, bytes_eq_iff, bytes}

abbrev pub slash : ℕ
slash = 47

unfoldable pub valid_segment_byte : ℕ → Bool
valid_segment_byte byte =
    (leb 97 byte && leb byte 122)
    || (leb 65 byte && leb byte 90)
    || (leb 48 byte && leb byte 57)
    || byte == 95
    || byte == 45
    || byte == 46

abbrev pub all_valid : Bytes → Bool
all_valid [] = true
all_valid (byte ∷ bytes) = if valid_segment_byte byte then all_valid bytes else false

-- A segment is not empty and neither "." nor "..".
abbrev pub valid_segment : Bytes → Bool
valid_segment [] = false
valid_segment segment =
    not (bytes_eq segment (46 ∷ [])) && not (bytes_eq segment (46 ∷ 46 ∷ [])) && all_valid segment

-- The text up to the next separator, and what stands behind it, if there is one.
unfoldable pub split : Bytes → Bytes × Option Bytes
split [] = ([], none)
split (c ∷ cs) = let r = split cs in if c == slash then ([], some cs) else (c ∷ r.0, r.1)

-- Each round drops a separator, so the length of the text bounds the rounds.
unfoldable pub valid_segments : ℕ → Bytes → Bool
valid_segments zero text = false
valid_segments (suc fuel) [] = false
valid_segments (suc fuel) (c ∷ cs) =
    let s = split (c ∷ cs) in
    if valid_segment s.0
    then elim s.1 [ none ↦ true | some rest ↦ valid_segments fuel rest ]
    else false

abbrev pub ends_with_slash : Bytes → Bool
ends_with_slash [] = false
ends_with_slash (c ∷ []) = c == slash
ends_with_slash (c ∷ d ∷ cs) = ends_with_slash (d ∷ cs)

abbrev pub after_slashes : Bytes → Option Bytes
after_slashes (c ∷ d ∷ text) = if c == slash && d == slash then some text else none
after_slashes _ = none

unfoldable pub valid_channel_name : Bytes → Bool
valid_channel_name name =
    if leb (length name) 2 || ltb 255 (length name) || ends_with_slash name
    then false
    else elim (after_slashes name) [ none ↦ false | some text ↦ valid_segments (length text) text ]

abbrev pub starts_with_slash : Bytes → Bool
starts_with_slash [] = false
starts_with_slash (c ∷ _) = c == slash

-- `RelativeChannelPath::parse`.
unfoldable pub parse_path : Bytes → Option Bytes
parse_path [] = none
parse_path path =
    if starts_with_slash path || ends_with_slash path
    then none
    else if valid_channel_name (slash ∷ slash ∷ path)
    then some path
    else none

-- `RelativeChannelPath::resolve`.
unfoldable pub resolve : Bytes → Bytes → Option Bytes
resolve root path =
    if valid_channel_name root
    then if valid_channel_name (root ++ (slash ∷ path)) then some (root ++ (slash ∷ path)) else none
    else none
