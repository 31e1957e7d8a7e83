-- ===== src/Ipc/Framing/Tests.antt =====
-- Tests of the frames, and the theorems' witnesses.
use puc.Base.{◌≡◌, refl, true, some, List, [], ◌∷◌, ◌++◌, arith, All}
use puc.Base.Bytes.{Bytes}
use puc.Ipc.{ok, truncated_message}
use puc.Ipc.Framing.{
  Event, timed_out, blocked, closed, moved, prefix, read_exactly, write_frame, read_frame,
  read_payload, decode_size,
}
use puc.Ipc.Framing.RoundTrip.{write_frame-Sends, read_frame-Receives, IsSteady}

-- Transfers of two bytes at most, with a wait and an interruption between them.
abbrev slow : List Event
slow =
    moved 2 ∷ timed_out ∷ moved 2 ∷ blocked ∷ moved 2 ∷ moved 2 ∷ moved 2 ∷ moved 2 ∷ moved 2 ∷ []

abbrev payload : Bytes
payload = 10 ∷ 20 ∷ 30 ∷ []

slow-All : All IsSteady slow
slow-All = (tt, (tt, (tt, (tt, (tt, (tt, (tt, (tt, (tt, tt)))))))))

reads_parts :
    read_frame true 100 slow (prefix 3 ++ payload ++ (9 ∷ []))
    ≡ some (ok, payload, 9 ∷ [], moved 2 ∷ moved 2 ∷ moved 2 ∷ [])
unfolding read_frame read_payload read_exactly decode_size
reads_parts = refl

truncated :
    read_frame true 100 (moved 2 ∷ closed ∷ []) (0 ∷ 0 ∷ []) ≡ some (truncated_message, [], [], [])
unfolding read_frame read_exactly decode_size
truncated = refl

-- The payload is announced as three bytes, and the stream ends behind one.
truncated_payload :
    read_frame true 100 (moved 4 ∷ moved 1 ∷ closed ∷ []) (prefix 3 ++ (10 ∷ []))
    ≡ some (truncated_message, 10 ∷ 0 ∷ 0 ∷ [], [], [])
unfolding read_frame read_payload read_exactly decode_size
truncated_payload = refl

write_frame-Sends_example :
    (rest : List Event) × (write_frame true 100 slow payload ≡ some (ok, prefix 3 ++ payload, rest))
write_frame-Sends_example =
    write_frame-Sends 100 slow payload (omega arith) (omega arith) slow-All (omega arith)

read_frame-Receives_example :
    (rest : List Event) × (read_frame true 100 slow (prefix 3 ++ payload ++ (9 ∷ []))
      ≡ some (ok, payload, 9 ∷ [], rest))
read_frame-Receives_example =
    read_frame-Receives 100 slow payload (9 ∷ []) (omega arith) (omega arith) slow-All (omega arith)
