-- ===== src/Tui/Selection.antt =====
-- puc-cli/tui/rendering/selection.cpp: the one selection that a screen owns. A frame's callbacks
-- are parameters: `is_selectable`, `update_selection`, which can fail, and `selected_text`. `W` is
-- the state of all frames.
mod Tests
pub mod Exclusive
use puc.Base.{
  ℕ, zero, suc, ◌+◌, ◌-◌, ◌*◌, ◌/◌, ◌%◌, ◌^◌, ◌≤◌, ◌<◌, ◌≡◌, refl, sym, ap, ap₂, subst, ◌∙◌, ◌≢◌,
  ◌↔◌, ◌⊎◌, inl, inr, Bool, true, false, not, ◌&&◌, ◌||◌, Option, none, some, List, [], ◌∷◌, ◌++◌,
  map, reverse, append-nil, append_assoc, reverse-append, reverse-cons, arith, ltb, leb, ◌==◌,
  if◌then◌else◌, ltb→lt, lt→ltb, leb→le, ==_iff, Bool-cases, Option-cases, and-eq-true, length,
  get_elem?, get_or, set, take, drop, concat, All, length-append, length-reverse, length-set,
  get_or-set_self, get_or-set_ne, get_or-append_left, get_or-append_length, All-append, All-map,
  lookup, contains, emplace, modify, Eq, lookup-append, lookup-emplace, lookup-modify,
}
use puc.Base.Sorting.{count, sort, count-append, count-sort, length-sort}
use puc.Base.Bytes.{Bytes, bytes_eq, bytes_eq_refl, bytes_eq_iff, bytes}
use puc.Tui.{
  Status, ok, invalid_argument, invalid_selection_transition, frame_not_selectable, no_selection,
  is_ok, is_empty,
}

pub data SelectionPhase : Type 0 where
  no_phase in_progress complete : SelectionPhase

pub data SelectionEventType : Type 0 where
  select_and_extend end_select_and_extend : SelectionEventType
  select_word select_line select_all reset_selection : SelectionEventType

-- The coordinates only pass through; they are counted from the least 64-bit number.
pub record SelectionPosition : Type 0 where
  pub x : ℕ
  pub y : ℕ

pub record SelectionEvent : Type 0 where
  pub event_type : SelectionEventType
  pub anchor : SelectionPosition
  pub extent : SelectionPosition

pub record SelectionStateMachine : Type 0 where
  pub phase : SelectionPhase
  pub active_frame_id : Bytes
  pub active_frame : Option ℕ

pub record Frame (W : Type 0) : Type 0 where
  pub is_selectable : ℕ → W → Bool
  pub update_selection : ℕ → SelectionEvent → W → Status × W
  pub selected_text : ℕ → W → Status × Bytes

abbrev pub idle : SelectionStateMachine
idle = record { phase = no_phase; active_frame_id = []; active_frame = none }

abbrev pub origin : SelectionPosition
origin = record { x = 2 ^ 63; y = 2 ^ 63 }

abbrev pub reset_event : SelectionEvent
reset_event = record { event_type = reset_selection; anchor = origin; extent = origin }

abbrev pub is_active_target : Bytes → ℕ → SelectionStateMachine → Bool
is_active_target id frame s = elim s.active_frame [
  | none ↦ false
  | some active ↦ active == frame && bytes_eq s.active_frame_id id
]

module _ {W : Type 0} (frames : Frame W) where
  abbrev pub Result : Type 0
  Result = Status × SelectionStateMachine × W

  abbrev pub reset_active : Option ℕ → SelectionStateMachine → W → Result
  reset_active none s w = (invalid_selection_transition, s, w)
  reset_active (some active) s w =
      let r = frames.update_selection active reset_event w in
      if is_ok r.0 then (ok, idle, r.1) else (r.0, s, r.1)

  unfoldable pub reset_in : SelectionPhase → SelectionStateMachine → W → Result
  reset_in no_phase s w =
      (ok, record { phase = s.phase; active_frame_id = []; active_frame = none }, w)
  reset_in _ s w = reset_active s.active_frame s w

  abbrev pub reset : SelectionStateMachine → W → Result
  reset s w = reset_in s.phase s w

  abbrev pub phase_after : SelectionEventType → SelectionPhase
  phase_after select_and_extend = in_progress
  phase_after _ = complete

  -- The end of `apply`: the frame's callback, and the new state if it accepts.
  unfoldable pub update : Bytes → ℕ → SelectionEvent → SelectionStateMachine → W → Result
  update id frame event s w =
      let r = frames.update_selection frame event w in
      if is_ok r.0
      then (
        ok,
        record {
          phase = phase_after event.event_type;
          active_frame_id = id;
          active_frame = some frame;
        },
        r.1,
      )
      else (r.0, s, r.1)

  abbrev pub reset_then_update : Bytes → ℕ → SelectionEvent → SelectionStateMachine → W → Result
  reset_then_update id frame event s w =
      let r = reset s w in if is_ok r.0 then update id frame event r.1 r.2 else r

  abbrev pub update_target : Bytes → ℕ → SelectionEvent → SelectionStateMachine → W → Result
  update_target id frame event s w =
      if is_active_target id frame s
      then update id frame event s w
      else (invalid_selection_transition, s, w)

  -- The switch on the event's type, by the phase.
  unfoldable pub dispatch :
      SelectionEventType
      → SelectionPhase
      → Bytes
      → ℕ
      → SelectionEvent
      → SelectionStateMachine
      → W
      → Result
  dispatch select_and_extend no_phase id frame event s w = update id frame event s w
  dispatch select_and_extend in_progress id frame event s w = update_target id frame event s w
  dispatch select_and_extend complete id frame event s w = reset_then_update id frame event s w
  dispatch end_select_and_extend in_progress id frame event s w = update_target id frame event s w
  dispatch end_select_and_extend _ id frame event s w = (invalid_selection_transition, s, w)
  dispatch reset_selection phase id frame event s w = reset s w
  dispatch _ no_phase id frame event s w = update id frame event s w
  dispatch _ _ id frame event s w = reset_then_update id frame event s w

  abbrev pub is_reset : SelectionEventType → Bool
  is_reset reset_selection = true
  is_reset _ = false

  unfoldable pub select : Bytes → ℕ → SelectionEvent → SelectionStateMachine → W → Result
  select id frame event s w =
      if is_empty id
      then (invalid_argument, s, w)
      else if frames.is_selectable frame w
      then dispatch event.event_type s.phase id frame event s w
      else (frame_not_selectable, s, w)

  unfoldable pub apply : Bytes → Option ℕ → SelectionEvent → SelectionStateMachine → W → Result
  apply id frame event s w =
      if is_reset event.event_type
      then reset s w
      else elim frame [ none ↦ (invalid_argument, s, w) | some target ↦ select id target event s w ]

  unfoldable pub shown_frame_id : SelectionStateMachine → Option Bytes
  shown_frame_id s = elim s.phase [
    | no_phase ↦ none
    | _ ↦ elim s.active_frame [ none ↦ none | some _ ↦ some s.active_frame_id ]
  ]

  unfoldable pub selected_text : SelectionStateMachine → W → Status × Bytes
  selected_text s w = elim s.phase [
    | complete ↦ elim s.active_frame [
      | none ↦ (no_selection, [])
      | some active ↦ frames.selected_text active w
    ]
    | _ ↦ (no_selection, [])
  ]
