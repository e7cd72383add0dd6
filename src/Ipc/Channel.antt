-- ===== src/Ipc/Channel.antt =====
-- Reading frames from a descriptor. The answers of the operating system are an argument: what a
-- blocking descriptor still delivers is a list of segments, of which a `read` gives at most one, and
-- `[]` among them or behind them is the end of the stream or an error; the answers to the reads of
-- one call on a non-blocking descriptor are a list of events.
use gemini_system.Prelude.{
  ℕ, zero, suc, ◌-◌, not, List, [], ◌∷◌, ◌++◌, Option, none, some, leb, ltb, if◌then◌else◌, length,
  take, drop,
}
use gemini_system.Ipc.{
  Frame, starts_with_magic, max_payload_size, decode_frame, complete_frame_length,
}
use gemini_system.Ipc.Words.{read_u16, read_u32}

-- The bytes that a read gave, before those of the rest of the loop.
abbrev pub prepend : List ℕ → Option (List ℕ × List (List ℕ)) → Option (List ℕ × List (List ℕ))
prepend bytes none = none
prepend bytes (some (more, stream)) = some (bytes ++ more, stream)

-- `readExact`: `none` is `false`.
unfoldable pub read_exact : ℕ → List (List ℕ) → Option (List ℕ × List (List ℕ))
read_exact zero stream = some ([], stream)
read_exact (suc n) [] = none
read_exact (suc n) ([] ∷ stream) = none
read_exact (suc n) ((b ∷ bs) ∷ stream) =
    let rest = read_exact (n - length bs) stream in
    if leb (length bs) n then prepend (b ∷ bs) rest else some (b ∷ take n bs, drop n bs ∷ stream)

abbrev pub frame_of : List ℕ → List ℕ → Frame
frame_of header payload = record {
  version = read_u16 header 0;
  message_type = read_u16 header 2;
  payload = payload;
}

abbrev read_payload : List ℕ → Option (List ℕ × List (List ℕ)) → Option (Frame × List (List ℕ))
read_payload header none = none
read_payload header (some (payload, stream)) = some (frame_of header payload, stream)

abbrev read_body : Option (List ℕ × List (List ℕ)) → Option (Frame × List (List ℕ))
read_body none = none
read_body (some (header, stream)) =
    if ltb max_payload_size (read_u32 header 4)
    then none
    else read_payload header (read_exact (read_u32 header 4) stream)

abbrev read_header : Option (List ℕ × List (List ℕ)) → Option (Frame × List (List ℕ))
read_header none = none
read_header (some (m, stream)) =
    if not (starts_with_magic m) then none else read_body (read_exact 8 stream)

-- `readDaemonIpcFrame`
unfoldable pub read_frame : List (List ℕ) → Option (Frame × List (List ℕ))
unfolding read_exact
read_frame stream = read_header (read_exact 4 stream)

-- One `read` of a non-blocking descriptor: bytes, the end of the stream, no bytes for now, an error.
pub data ReadEvent : Type 0 where
  received : List ℕ → ReadEvent
  end_of_stream would_block read_error : ReadEvent

pub data TryRead : Type 0 where
  incomplete : TryRead
  frame_ready : Frame → TryRead
  connection_closed protocol_error : TryRead

abbrev pub closed_status : List ℕ → TryRead
closed_status [] = connection_closed
closed_status (b ∷ bs) = protocol_error

abbrev pub frame_status : Option Frame → TryRead
frame_status none = protocol_error
frame_status (some f) = frame_ready f

-- Behind the loop: the status, and the buffer that is left.
abbrev pub take_frame : List ℕ → Option ℕ → TryRead × List ℕ
take_frame buffer none = (incomplete, buffer)
take_frame buffer (some zero) = (protocol_error, buffer)
take_frame buffer (some (suc n)) =
    (frame_status (decode_frame (take (suc n) buffer)), drop (suc n) buffer)

-- `tryReadDaemonIpcFrame`. The loop ends at the first event that is not bytes; an empty list of
-- events is a descriptor that has nothing for now.
unfoldable pub try_read_frame : List ReadEvent → List ℕ → TryRead × List ℕ
try_read_frame [] buffer = take_frame buffer (complete_frame_length buffer)
try_read_frame (would_block ∷ events) buffer = take_frame buffer (complete_frame_length buffer)
try_read_frame (end_of_stream ∷ events) buffer = (closed_status buffer, buffer)
try_read_frame (read_error ∷ events) buffer = (connection_closed, buffer)
try_read_frame (received bytes ∷ events) buffer = try_read_frame events (buffer ++ bytes)
