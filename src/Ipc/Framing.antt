-- ===== src/Ipc/Framing.antt =====
-- utils/ipc/framed_io.cpp: frames of a four-byte size and a payload on a stream that moves parts.
-- The system's answers are a list of events; `none` is a call that still waits when the list ends.
mod Tests
pub mod RoundTrip
use puc.Base.{
  ℕ, zero, suc, ◌+◌, ◌-◌, ◌*◌, ◌/◌, ◌%◌, ◌^◌, ◌≤◌, ◌<◌, ◌≡◌, refl, sym, ap, ap₂, subst, ◌∙◌, ◌≢◌,
  ◌↔◌, ◌⊎◌, inl, inr, Bool, true, false, not, ◌&&◌, ◌||◌, Option, none, some, List, [], ◌∷◌, ◌++◌,
  map, reverse, append-nil, append_assoc, reverse-append, reverse-cons, arith, ltb, leb, ◌==◌,
  if◌then◌else◌, ltb→lt, lt→ltb, leb→le, ==_iff, Bool-cases, Option-cases, and-eq-true, length,
  get_elem?, get_or, set, take, drop, concat, All, length-append, length-reverse, length-set,
  get_or-set_self, get_or-set_ne, get_or-append_left, get_or-append_length, All-append, All-map,
  lookup, contains, emplace, modify, Eq, lookup-append, lookup-emplace, lookup-modify,
}
use puc.Base.Sorting.{count, sort, count-append, count-sort, length-sort}
use puc.Base.Bytes.{Bytes, bytes_eq, bytes_eq_refl, bytes_eq_iff, bytes}
use puc.Ipc.{
  Status, ok, channel_unavailable, not_connected, message_too_large, io_error, end_of_stream,
  truncated_message,
}

-- What one wait and, if the descriptor is ready, one transfer answer. `moved n` is a count, of which
-- no more than is left is used; `blocked` is EINTR, EAGAIN or EWOULDBLOCK, `disconnected` EPIPE,
-- ECONNRESET or ENOTCONN, and `failed` any other error.
pub data Event : Type 0 where
  timed_out stopping closed poll_failed blocked disconnected failed : Event
  moved : ℕ → Event

-- The status, the bytes that were written, and the events behind.
abbrev pub Written : Type 0
Written = Option (Status × Bytes × List Event)

unfoldable pub write_all : List Event → Bytes → Bytes → Written
write_all events [] sent = some (ok, sent, events)
write_all [] (b ∷ bs) sent = none
write_all (timed_out ∷ events) (b ∷ bs) sent = write_all events (b ∷ bs) sent
write_all (blocked ∷ events) (b ∷ bs) sent = write_all events (b ∷ bs) sent
write_all (stopping ∷ events) (b ∷ bs) sent = some (channel_unavailable, sent, events)
write_all (closed ∷ events) (b ∷ bs) sent = some (end_of_stream, sent, events)
write_all (disconnected ∷ events) (b ∷ bs) sent = some (not_connected, sent, events)
write_all (moved zero ∷ events) (b ∷ bs) sent = some (io_error, sent, events)
write_all (moved (suc n) ∷ events) (b ∷ bs) sent =
    write_all events (drop n bs) (sent ++ (b ∷ take n bs))
write_all (_ ∷ events) (b ∷ bs) sent = some (io_error, sent, events)

-- The status, the bytes that were read, the bytes left on the stream and the events behind.
abbrev pub Read : Type 0
Read = Option (Status × Bytes × Bytes × List Event)

-- The end of the stream inside of a message is a truncation.
abbrev pub at_end : Bytes → Status
at_end [] = end_of_stream
at_end (_ ∷ _) = truncated_message

-- `size` bytes are still to be read. An empty stream that is ready is at its end.
unfoldable pub read_exactly : List Event → ℕ → Bytes → Bytes → Read
read_exactly events zero got stream = some (ok, got, stream, events)
read_exactly [] (suc size) got stream = none
read_exactly (timed_out ∷ events) (suc size) got stream = read_exactly events (suc size) got stream
read_exactly (blocked ∷ events) (suc size) got stream = read_exactly events (suc size) got stream
read_exactly (stopping ∷ events) (suc size) got stream =
    some (channel_unavailable, got, stream, events)
read_exactly (closed ∷ events) (suc size) got stream = some (at_end got, got, stream, events)
read_exactly (moved zero ∷ events) (suc size) got stream = some (at_end got, got, stream, events)
read_exactly (moved (suc n) ∷ events) (suc size) got [] = some (at_end got, got, [], events)
read_exactly (moved (suc n) ∷ events) (suc size) got (b ∷ bs) =
    let rest = take (if leb n size then n else size) bs in
    read_exactly events (size - length rest) (got ++ (b ∷ rest)) (drop (length rest) bs)
read_exactly (_ ∷ events) (suc size) got stream = some (io_error, got, stream, events)

abbrev pub prefix : ℕ → Bytes
prefix size =
    (size / 2 ^ 24 % 256) ∷ (size / 2 ^ 16 % 256) ∷ (size / 2 ^ 8 % 256) ∷ (size % 256) ∷ []

unfoldable pub decode_size : Bytes → ℕ
decode_size (a ∷ b ∷ c ∷ d ∷ []) = a * 2 ^ 24 + b * 2 ^ 16 + c * 2 ^ 8 + d
decode_size _ = 0

-- `connected` is that the descriptor is not negative. The count in the result is left out: it is the
-- payload's length when the status is ok.
unfoldable pub write_frame : Bool → ℕ → List Event → Bytes → Written
write_frame false maximum events payload = some (not_connected, [], events)
write_frame true maximum events payload =
    if ltb maximum (length payload) || ltb (2 ^ 32 - 1) (length payload)
    then some (message_too_large, [], events)
    else elim (write_all events (prefix (length payload)) []) [
      | none ↦ none
      | some (ok, sent, rest) ↦ write_all rest payload sent
      | some (status, sent, rest) ↦ some (status, sent, rest)
    ]

-- The output of a failed read: it was resized before, so zeros stand where nothing was read.
abbrev zero_bytes : ℕ → Bytes
zero_bytes zero = []
zero_bytes (suc n) = 0 ∷ zero_bytes n

abbrev pub resized : ℕ → Bytes → Bytes
resized size got = got ++ zero_bytes (size - length got)

unfoldable pub read_payload : List Event → ℕ → Bytes → Read
read_payload events size stream = elim (read_exactly events size [] stream) [
  | none ↦ none
  | some (ok, got, left, rest) ↦ some (ok, got, left, rest)
  | some (status, got, left, rest) ↦ some (status, resized size got, left, rest)
]

unfoldable pub read_frame : Bool → ℕ → List Event → Bytes → Read
read_frame false maximum events stream = some (not_connected, [], stream, events)
read_frame true maximum events stream = elim (read_exactly events 4 [] stream) [
  | none ↦ none
  | some (ok, got, left, rest) ↦
      if ltb maximum (decode_size got)
      then some (message_too_large, [], left, rest)
      else read_payload rest (decode_size got) left
  | some (status, got, left, rest) ↦ some (status, [], left, rest)
]
