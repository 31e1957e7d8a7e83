-- ===== src/Tui/ZBuffer/Calls.antt =====
-- Histories of calls on the Z-buffer of puc-cli/tui/rendering/zbuf.cpp.
use puc.Base.{
  ℕ, ◌≡◌, refl, inl, inr, true, Option, none, some, List, [], ◌∷◌, ◌++◌, arith, Option-cases,
}
use puc.Base.Bytes.{Bytes, bytes_eq_iff}
use puc.Tui.{Status, ok}
use puc.Tui.ZBuffer.{Entry, ZBuffer, find_frame, add, remove, bring_to_front, empty}
use puc.Tui.ZBuffer.Order.{
  others, is_distinct, others_missing, find_frame-name, erase_frame-others, found_last-others,
  is_distinct-snoc, is_distinct-others, find_frame-others,
}

pub data Call : Type 0 where
  adding : Bytes → Option ℕ → Call
  removing : Bytes → Call
  bringing_to_front : Bytes → Call

unfoldable pub call : Call → ZBuffer → Status × ZBuffer
call (adding id frame) z = add id frame z
call (removing id) z = remove id z
call (bringing_to_front id) z = bring_to_front id z

unfoldable pub run : List Call → ZBuffer → ZBuffer
unfolding call
run [] z = z
run (c ∷ cs) z = run cs (call c z).1

-- In a buffer of distinct names, a frame that is brought to the front comes to stand behind all
-- others, whose order is kept.
pub bring_to_front-others :
    (id : Bytes) (z : ZBuffer) (e : Entry)
    → is_distinct z.frames ≡ true
    → find_frame id z.frames ≡ some e
    → ((bring_to_front id z).0 ≡ ok)
      × ((bring_to_front id z).1.frames ≡ others id z.frames ++ (e ∷ []))
unfolding bring_to_front
bring_to_front-others id z e d f =
    ground (arith, found_last-others id z.frames e d f, erase_frame-others id z.frames d)

-- In a buffer of distinct names, `remove` leaves the other frames in their order, whether or not
-- the name is there.
pub remove-others :
    (id : Bytes) (z : ZBuffer)
    → is_distinct z.frames ≡ true
    → (remove id z).1.frames ≡ others id z.frames
unfolding remove
remove-others id z d = ground (arith, others_missing id z.frames, erase_frame-others id z.frames d)

call-is_distinct :
    (c : Call) (z : ZBuffer) → is_distinct z.frames ≡ true → is_distinct (call c z).1.frames ≡ true
unfolding call add bring_to_front
call-is_distinct (adding id none) z d = d
call-is_distinct (adding id (some frame)) z d =
    ground (arith, is_distinct-snoc z.frames (record { frame_id = id; frame = frame }))
call-is_distinct (removing id) z d = rw (remove-others id z d) (is_distinct-others id z.frames d)
call-is_distinct (bringing_to_front id) z d = elim (Option-cases (find_frame id z.frames)) [
  | inl f ↦ rw (bring_to_front, f) d
  | inr (e, f) ↦ rw ((bring_to_front-others id z e d f).1) (
      is_distinct-snoc (others id z.frames) e
        (ground (
          arith,
          find_frame-others id e.frame_id z.frames,
          find_frame-name id z.frames e f,
          bytes_eq_iff e.frame_id id,
          bytes_eq_iff id e.frame_id,
        ))
        (is_distinct-others id z.frames d))
]

run_keeps-is_distinct :
    (cs : List Call) (z : ZBuffer)
    → is_distinct z.frames ≡ true
    → is_distinct (run cs z).frames ≡ true
unfolding run
run_keeps-is_distinct [] z d = d
run_keeps-is_distinct (c ∷ cs) z d = run_keeps-is_distinct cs (call c z).1 (call-is_distinct c z d)

-- After every history of calls on an empty buffer, no name occurs twice.
pub run-is_distinct : (calls : List Call) → is_distinct (run calls empty).frames ≡ true
unfolding is_distinct
run-is_distinct calls = run_keeps-is_distinct calls empty refl

-- A call that leaves the revision of a buffer unchanged leaves the whole buffer unchanged.
pub call-revision : (c : Call) (z : ZBuffer) → (call c z).1.revision ≡ z.revision → (call c z).1 ≡ z
unfolding call add remove bring_to_front
call-revision (adding id none) z h = refl
call-revision (adding id (some frame)) z h = ground arith
call-revision (removing id) z h = ground arith
call-revision (bringing_to_front id) z h = ground arith
