-- ===== src/Ipc/Framing/RoundTrip.antt =====
-- A frame that utils/ipc/framed_io.cpp writes is the frame that it reads, however the stream moves
-- its parts.
use puc.Base.{
  ℕ, zero, suc, ◌+◌, ◌-◌, ◌^◌, ◌≤◌, ◌<◌, ◌≡◌, refl, sym, ap, ap₂, ◌∙◌, true, false, ◌||◌, some,
  List, [], ◌∷◌, ◌++◌, append-nil, append_assoc, arith, ltb, leb, if◌then◌else◌, length, take, drop,
  All,
}
use puc.Base.Bytes.{Bytes}
use puc.Ipc.{ok}
use puc.Ipc.Framing.{
  Event, timed_out, stopping, closed, poll_failed, blocked, disconnected, failed, moved, write_all,
  read_exactly, prefix, decode_size, write_frame, read_frame, read_payload,
}

-- Waits, interruptions and transfers of at least one byte.
abbrev pub IsSteady : Event → Type 0
IsSteady timed_out = Unit
IsSteady blocked = Unit
IsSteady (moved (suc n)) = Unit
IsSteady _ = ⊥

-- The number of transfers.
abbrev pub moves : List Event → ℕ
moves [] = 0
moves (moved n ∷ es) = suc (moves es)
moves (_ ∷ es) = moves es

take-drop : (n : ℕ) (xs : Bytes) → take n xs ++ drop n xs ≡ xs
take-drop zero xs = refl
take-drop (suc n) [] = refl
take-drop (suc n) (x ∷ xs) = ap (λ (t : Bytes). x ∷ t) (take-drop n xs)

length-drop : (n : ℕ) (xs : Bytes) → length (drop n xs) ≤ length xs
length-drop zero xs = omega arith
length-drop (suc n) [] = omega arith
length-drop (suc n) (x ∷ xs) = omega (arith, length-drop n xs)

-- The whole text goes out, and at most one transfer is used for each byte.
abbrev Sends : List Event → Bytes → Bytes → Type 0
Sends events text sent =
    (rest : List Event) × (write_all events text sent ≡ some (ok, sent ++ text, rest))
    × All IsSteady rest
    × (moves events ≤ moves rest + length text)

whole_out :
    (events : List Event) (text sent : Bytes)
    → All IsSteady events
    → length text ≤ moves events
    → Sends events text sent
unfolding write_all
whole_out es [] sent s l =
    (es, ap (λ (t : Bytes). some (ok, t, es)) (sym (append-nil sent)), s, omega arith)
whole_out [] (b ∷ bs) sent s l = absurd (omega arith)
whole_out (timed_out ∷ es) (b ∷ bs) sent s l = whole_out es (b ∷ bs) sent s.1 l
whole_out (blocked ∷ es) (b ∷ bs) sent s l = whole_out es (b ∷ bs) sent s.1 l
whole_out (stopping ∷ es) (b ∷ bs) sent s l = absurd s.0
whole_out (closed ∷ es) (b ∷ bs) sent s l = absurd s.0
whole_out (poll_failed ∷ es) (b ∷ bs) sent s l = absurd s.0
whole_out (disconnected ∷ es) (b ∷ bs) sent s l = absurd s.0
whole_out (failed ∷ es) (b ∷ bs) sent s l = absurd s.0
whole_out (moved zero ∷ es) (b ∷ bs) sent s l = absurd s.0
whole_out (moved (suc n) ∷ es) (b ∷ bs) sent s l =
    let r =
      whole_out es (drop n bs) (sent ++ (b ∷ take n bs)) s.1 (omega (arith, length-drop n bs, l)) in
    (
      r.0,
      r.1
          ∙ ap (λ (t : Bytes). some (ok, t, r.0))
              (append_assoc sent (b ∷ take n bs) (drop n bs)
                ∙ ap (λ (t : Bytes). sent ++ (b ∷ t)) (take-drop n bs)),
      r.2,
      omega (arith, r.3, length-drop n bs),
    )

-- A part of a text that is followed by more.
take_part :
    (n : ℕ) (xs ys : Bytes)
    → take (if leb n (length xs) then n else length xs) (xs ++ ys) ≡ take n xs
take_part zero xs ys = ground arith
take_part (suc n) [] ys = ground arith
take_part (suc n) (x ∷ xs) ys = ground (arith, take_part n xs ys)

left_part : (n : ℕ) (xs : Bytes) → length xs - length (take n xs) ≡ length (drop n xs)
left_part zero xs = omega arith
left_part (suc n) [] = omega arith
left_part (suc n) (x ∷ xs) = omega (arith, left_part n xs)

drop_part : (n : ℕ) (xs ys : Bytes) → drop (length (take n xs)) (xs ++ ys) ≡ drop n xs ++ ys
drop_part zero xs ys = refl
drop_part (suc n) [] ys = refl
drop_part (suc n) (x ∷ xs) ys = drop_part n xs ys

-- As many bytes as were asked for come in, and the rest stays on the stream.
abbrev Receives : List Event → Bytes → Bytes → Bytes → Type 0
Receives events text got tail =
    (rest : List Event) × (read_exactly events (length text) got (text ++ tail)
      ≡ some (ok, got ++ text, tail, rest))
    × All IsSteady rest
    × (moves events ≤ moves rest + length text)

read_step :
    (n b : ℕ) (es : List Event) (bs got tail : Bytes)
    → read_exactly (moved (suc n) ∷ es) (suc (length bs)) got (b ∷ bs ++ tail)
      ≡ read_exactly es (length (drop n bs)) (got ++ (b ∷ take n bs)) (drop n bs ++ tail)
unfolding read_exactly
read_step n b es bs got tail =
    ap
      (λ (t : Bytes).
        read_exactly es (length bs - length t) (got ++ (b ∷ t)) (drop (length t) (bs ++ tail)))
      (take_part n bs tail)
    ∙ ap₂ (λ (k : ℕ) (t : Bytes). read_exactly es k (got ++ (b ∷ take n bs)) t) (left_part n bs)
        (drop_part n bs tail)

whole_in :
    (events : List Event) (text got tail : Bytes)
    → All IsSteady events
    → length text ≤ moves events
    → Receives events text got tail
unfolding read_exactly
whole_in es [] got tail s l =
    (es, ap (λ (t : Bytes). some (ok, t, tail, es)) (sym (append-nil got)), s, omega arith)
whole_in [] (b ∷ bs) got tail s l = absurd (omega arith)
whole_in (timed_out ∷ es) (b ∷ bs) got tail s l = whole_in es (b ∷ bs) got tail s.1 l
whole_in (blocked ∷ es) (b ∷ bs) got tail s l = whole_in es (b ∷ bs) got tail s.1 l
whole_in (stopping ∷ es) (b ∷ bs) got tail s l = absurd s.0
whole_in (closed ∷ es) (b ∷ bs) got tail s l = absurd s.0
whole_in (poll_failed ∷ es) (b ∷ bs) got tail s l = absurd s.0
whole_in (disconnected ∷ es) (b ∷ bs) got tail s l = absurd s.0
whole_in (failed ∷ es) (b ∷ bs) got tail s l = absurd s.0
whole_in (moved zero ∷ es) (b ∷ bs) got tail s l = absurd s.0
whole_in (moved (suc n) ∷ es) (b ∷ bs) got tail s l =
    let r =
      whole_in es (drop n bs) (got ++ (b ∷ take n bs)) tail s.1
        (omega (arith, length-drop n bs, l)) in
    (
      r.0,
      read_step n b es bs got tail
          ∙ r.1
          ∙ ap (λ (t : Bytes). some (ok, t, tail, r.0))
              (append_assoc got (b ∷ take n bs) (drop n bs)
                ∙ ap (λ (t : Bytes). got ++ (b ∷ t)) (take-drop n bs)),
      r.2,
      omega (arith, r.3, length-drop n bs),
    )

decode_size-prefix : (size : ℕ) → size < 2 ^ 32 → decode_size (prefix size) ≡ size
unfolding decode_size
decode_size-prefix size l = omega (arith, l)

ltb_le : (size maximum : ℕ) → size ≤ maximum → ltb maximum size ≡ false
ltb_le size maximum m = ground (arith, m)

fits :
    (maximum size : ℕ)
    → size ≤ maximum
    → size < 2 ^ 32
    → (ltb maximum size || ltb (2 ^ 32 - 1) size) ≡ false
fits maximum size m w = ground (arith, m, w)

-- A payload within the limit and below 2^32 bytes is written whole as its prefix and itself, when the
-- stream goes on answering and moves bytes often enough.
pub write_frame-Sends :
    (maximum : ℕ) (events : List Event) (payload : Bytes)
    → length payload ≤ maximum
    → length payload < 2 ^ 32
    → All IsSteady events
    → 4 + length payload ≤ moves events
    → (rest : List Event) × (write_frame true maximum events payload
        ≡ some (ok, prefix (length payload) ++ payload, rest))
unfolding write_frame
write_frame-Sends maximum events payload m w s l =
    let a = whole_out events (prefix (length payload)) [] s (omega (arith, l)) in
    let b = whole_out a.0 payload (prefix (length payload)) a.2 (omega (arith, l, a.3)) in
    (b.0, rw (write_frame, fits maximum (length payload) m w, a.1) b.1)

read_payload-ok :
    (events rest : List Event) (size : ℕ) (stream got left : Bytes)
    → read_exactly events size [] stream ≡ some (ok, got, left, rest)
    → read_payload events size stream ≡ some (ok, got, left, rest)
unfolding read_payload
read_payload-ok events rest size stream got left e = rw (read_payload, e) refl

-- From a stream that starts with the prefix and the payload, and goes on answering and moves bytes
-- often enough, exactly the payload is read, and what follows stays on the stream.
pub read_frame-Receives :
    (maximum : ℕ) (events : List Event) (payload tail : Bytes)
    → length payload ≤ maximum
    → length payload < 2 ^ 32
    → All IsSteady events
    → 4 + length payload ≤ moves events
    → (rest : List Event) × (read_frame true maximum events
          (prefix (length payload) ++ payload ++ tail)
        ≡ some (ok, payload, tail, rest))
unfolding read_frame
read_frame-Receives maximum events payload tail m w s l =
    let a = whole_in events (prefix (length payload)) [] (payload ++ tail) s (omega (arith, l)) in
    let b = whole_in a.0 payload [] tail a.2 (omega (arith, l, a.3)) in
    (
      b.0,
      rw (read_frame, a.1, decode_size-prefix (length payload) w, ltb_le (length payload) maximum m)
          (read_payload-ok a.0 b.0 (length payload) (payload ++ tail) payload tail b.1),
    )
