-- ===== src/Tui/ZBuffer.antt =====
-- puc-cli/tui/rendering/zbuf.cpp: the frames in painting order, with a revision that wraps around
-- at the width of `std::size_t`.
mod Tests
pub mod Order
pub mod Calls
use puc.Base.{
  ℕ, zero, suc, ◌+◌, ◌-◌, ◌*◌, ◌/◌, ◌%◌, ◌^◌, ◌≤◌, ◌<◌, ◌≡◌, refl, sym, ap, ap₂, subst, ◌∙◌, ◌≢◌,
  ◌↔◌, ◌⊎◌, inl, inr, Bool, true, false, not, ◌&&◌, ◌||◌, Option, none, some, List, [], ◌∷◌, ◌++◌,
  map, reverse, append-nil, append_assoc, reverse-append, reverse-cons, arith, ltb, leb, ◌==◌,
  if◌then◌else◌, ltb→lt, lt→ltb, leb→le, ==_iff, Bool-cases, Option-cases, and-eq-true, length,
  get_elem?, get_or, set, take, drop, concat, All, length-append, length-reverse, length-set,
  get_or-set_self, get_or-set_ne, get_or-append_left, get_or-append_length, All-append, All-map,
  lookup, contains, emplace, modify, Eq, lookup-append, lookup-emplace, lookup-modify,
}
use puc.Base.Sorting.{count, sort, count-append, count-sort, length-sort}
use puc.Base.Bytes.{Bytes, bytes_eq, bytes_eq_refl, bytes_eq_iff, bytes}
use puc.Tui.{Status, ok, invalid_argument, duplicate_frame_id, frame_not_found, is_empty}

pub record Entry : Type 0 where
  pub frame_id : Bytes
  pub frame : ℕ

pub record ZBuffer : Type 0 where
  pub frames : List Entry
  pub revision : ℕ

-- `std::find_if`: the first entry of that name.
unfoldable pub find_frame : Bytes → List Entry → Option Entry
find_frame id [] = none
find_frame id (e ∷ es) = if bytes_eq e.frame_id id then some e else find_frame id es

-- `frames_.erase(found)`.
unfoldable pub erase_frame : Bytes → List Entry → List Entry
erase_frame id [] = []
erase_frame id (e ∷ es) = if bytes_eq e.frame_id id then es else e ∷ erase_frame id es

-- `std::next(found) == frames_.end()`.
unfoldable pub found_last : Bytes → List Entry → Bool
found_last id [] = false
found_last id (e ∷ []) = bytes_eq e.frame_id id
found_last id (e ∷ f ∷ es) = if bytes_eq e.frame_id id then false else found_last id (f ∷ es)

abbrev pub next_revision : ℕ → ℕ
next_revision n = (n + 1) % 2 ^ 64

abbrev pub with_frames : List Entry → ZBuffer → ZBuffer
with_frames frames z = record { frames = frames; revision = next_revision z.revision }

unfoldable pub add : Bytes → Option ℕ → ZBuffer → Status × ZBuffer
add id none z = (invalid_argument, z)
add id (some frame) z =
    if is_empty id then (invalid_argument, z) else elim (find_frame id z.frames) [
      | none ↦ (ok, with_frames (z.frames ++ (record { frame_id = id; frame = frame } ∷ [])) z)
      | some existing ↦ (duplicate_frame_id, z)
    ]

unfoldable pub remove : Bytes → ZBuffer → Status × ZBuffer
remove id z = elim (find_frame id z.frames) [
  | none ↦ (frame_not_found, z)
  | some found ↦ (ok, with_frames (erase_frame id z.frames) z)
]

unfoldable pub bring_to_front : Bytes → ZBuffer → Status × ZBuffer
bring_to_front id z = elim (find_frame id z.frames) [
  | none ↦ (frame_not_found, z)
  | some found ↦
      if found_last id z.frames
      then (ok, z)
      else (ok, with_frames (erase_frame id z.frames ++ (found ∷ [])) z)
]

abbrev pub empty : ZBuffer
empty = record { frames = []; revision = 0 }
