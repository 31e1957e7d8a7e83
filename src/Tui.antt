-- ===== src/Tui.antt =====
-- The parts of puc-cli/tui/rendering that keep state about frames: the Z-buffer and the selection.
-- A shared pointer to a frame is a number, its identity; a null pointer is none. Log lines are
-- left out.
pub mod ZBuffer
pub mod Selection
use puc.Base.{
  ℕ, zero, suc, ◌+◌, ◌-◌, ◌*◌, ◌/◌, ◌%◌, ◌^◌, ◌≤◌, ◌<◌, ◌≡◌, refl, sym, ap, ap₂, subst, ◌∙◌, ◌≢◌,
  ◌↔◌, ◌⊎◌, inl, inr, Bool, true, false, not, ◌&&◌, ◌||◌, Option, none, some, List, [], ◌∷◌, ◌++◌,
  map, reverse, append-nil, append_assoc, reverse-append, reverse-cons, arith, ltb, leb, ◌==◌,
  if◌then◌else◌, ltb→lt, lt→ltb, leb→le, ==_iff, Bool-cases, Option-cases, and-eq-true, length,
  get_elem?, get_or, set, take, drop, concat, All, length-append, length-reverse, length-set,
  get_or-set_self, get_or-set_ne, get_or-append_left, get_or-append_length, All-append, All-map,
  lookup, contains, emplace, modify, Eq, lookup-append, lookup-emplace, lookup-modify,
}
use puc.Base.Sorting.{count, sort, count-append, count-sort, length-sort}
use puc.Base.Bytes.{Bytes, bytes_eq, bytes_eq_refl, bytes_eq_iff, bytes}

-- The statuses of status.hpp.
pub data Status : Type 0 where
  ok invalid_argument invalid_dimensions dimension_overflow : Status
  frame_already_in_progress no_frame_in_progress rect_out_of_bounds : Status
  cell_shape_mismatch duplicate_frame_id frame_not_found frame_not_selectable : Status
  invalid_selection_transition no_selection invalid_percentage invalid_ratio : Status
  invalid_constraint constraint_cycle canvas_not_set terminal_not_available : Status
  terminal_query_failed terminal_config_failed terminal_write_failed : Status
  channel_setup_failed message_encoding_failed message_decoding_failed : Status
  async_dispatch_failed : Status

abbrev pub is_ok : Status → Bool
is_ok ok = true
is_ok _ = false

abbrev pub is_empty : Bytes → Bool
is_empty [] = true
is_empty (_ ∷ _) = false

pub is_ok_eq : (s : Status) → is_ok s ≡ true → s ≡ ok
is_ok_eq ok h = refl
is_ok_eq s h = cc
