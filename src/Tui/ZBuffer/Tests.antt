-- ===== src/Tui/ZBuffer/Tests.antt =====
-- Tests of the Z-buffer, and the theorems' witnesses.
use puc.Base.{ℕ, ◌-◌, ◌^◌, ◌≡◌, refl, true, some, [], ◌∷◌, ◌++◌}
use puc.Base.Bytes.{Bytes, bytes_eq, bytes}
use puc.Tui.{ok}
use puc.Tui.ZBuffer.{Entry, ZBuffer, find_frame, found_last, add, remove, bring_to_front, empty}
use puc.Tui.ZBuffer.Order.{others, is_distinct}
use puc.Tui.ZBuffer.Calls.{
  adding, bringing_to_front, call, run, bring_to_front-others, remove-others, run-is_distinct,
  call-revision,
}

abbrev entry : Bytes → ℕ → Entry
entry id frame = record { frame_id = id; frame = frame }

abbrev two_frames : ZBuffer
two_frames = record { frames = entry (bytes "a") 1 ∷ entry (bytes "b") 2 ∷ []; revision = 2 }

adds_two : run (adding (bytes "a") (some 1) ∷ adding (bytes "b") (some 2) ∷ []) empty ≡ two_frames
unfolding run call add find_frame bytes_eq
adds_two = refl

two_frames-is_distinct : is_distinct two_frames.frames ≡ true
unfolding is_distinct find_frame bytes_eq
two_frames-is_distinct = refl

finds_a : find_frame (bytes "a") two_frames.frames ≡ some (entry (bytes "a") 1)
unfolding find_frame bytes_eq
finds_a = refl

front_wraps :
    (bring_to_front (bytes "a") (record two_frames { revision = 2 ^ 64 - 1 })).1.revision ≡ 0
unfolding bring_to_front find_frame found_last bytes_eq
front_wraps = refl

bring_to_front-others_example :
    ((bring_to_front (bytes "a") two_frames).0 ≡ ok)
    × ((bring_to_front (bytes "a") two_frames).1.frames
        ≡ others (bytes "a") two_frames.frames ++ (entry (bytes "a") 1 ∷ []))
bring_to_front-others_example =
    bring_to_front-others (bytes "a") two_frames (entry (bytes "a") 1) two_frames-is_distinct
      finds_a

remove-others_example :
    (remove (bytes "a") two_frames).1.frames ≡ others (bytes "a") two_frames.frames
remove-others_example = remove-others (bytes "a") two_frames two_frames-is_distinct

run-is_distinct_example :
    is_distinct (run (adding (bytes "a") (some 1) ∷ adding (bytes "a") (some 2) ∷ []) empty).frames
    ≡ true
run-is_distinct_example =
    run-is_distinct (adding (bytes "a") (some 1) ∷ adding (bytes "a") (some 2) ∷ [])

keeps_revision : (call (bringing_to_front (bytes "b")) two_frames).1.revision ≡ 2
unfolding call bring_to_front find_frame found_last bytes_eq
keeps_revision = refl

call-revision_example : (call (bringing_to_front (bytes "b")) two_frames).1 ≡ two_frames
call-revision_example = call-revision (bringing_to_front (bytes "b")) two_frames keeps_revision
