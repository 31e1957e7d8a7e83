-- ===== src/Tui/Selection/Tests.antt =====
-- Tests of the selection, and the theorem's witness.
use puc.Base.{ℕ, ◌≡◌, refl, Bool, true, false, not, some, List, [], ◌∷◌, arith, ◌==◌, if◌then◌else◌}
use puc.Base.Bytes.{bytes}
use puc.Tui.{ok, invalid_argument, invalid_selection_transition}
use puc.Tui.Selection.{
  SelectionEvent, SelectionEventType, in_progress, select_word, select_and_extend, reset_selection,
  Frame, idle, origin, apply, select, dispatch,
}
use puc.Tui.Selection.Exclusive.{IsFrame, IsExclusive, Step, run, run-IsExclusive}

-- Frames that show a selection after every event but a reset; frame 0 rejects its events.
abbrev is_clearing : SelectionEventType → Bool
is_clearing reset_selection = true
is_clearing _ = false

abbrev sample_frames : Frame (ℕ → Bool)
sample_frames = record {
  is_selectable = λ f w. true;
  update_selection = λ f e w.
      if f == 0
      then (invalid_argument, w)
      else (ok, λ j. if j == f then not (is_clearing e.event_type) else w j);
  selected_text = λ f w. (ok, []);
}

abbrev shown : ℕ → (ℕ → Bool) → Bool
shown j w = w j

sample_frames-IsFrame : IsFrame sample_frames shown
sample_frames-IsFrame = record {
  elsewhere = λ f j e w n. ground (arith, n);
  rejected = λ f j e w r. ground (arith, r);
  cleared = λ f e w c r. ground (arith, c, r);
}

abbrev event : SelectionEventType → SelectionEvent
event t = record { event_type = t; anchor = origin; extent = origin }

abbrev steps : List Step
steps =
    record { id = bytes "a"; target = some 1; event = event select_and_extend }
    ∷ record { id = bytes "b"; target = some 2; event = event select_word }
    ∷ []

abbrev nothing : ℕ → Bool
nothing j = false

other_frame_waits :
    (apply sample_frames
      (bytes "b")
      (some 2)
      (event select_and_extend)
      (record { phase = in_progress; active_frame_id = bytes "a"; active_frame = some 1 })
      nothing).0
    ≡ invalid_selection_transition
unfolding apply select dispatch
other_frame_waits = refl

run-IsExclusive_example :
    let r = run sample_frames shown sample_frames-IsFrame steps idle (λ j. false) in
    IsExclusive shown r.0 r.1
run-IsExclusive_example =
    run-IsExclusive sample_frames shown sample_frames-IsFrame steps (λ j. false) (λ j. refl)
