-- ===== src/Ipc.antt =====
-- core/daemon/DaemonIpcProtocol: the frames between the daemon and its consoles. A byte is a number
-- below 256; `uint16_t` and `uint32_t` fields are numbers, cut off where the code casts to them. The
-- message type is an enum over `uint16_t` that the decoder fills by a cast, so any number may stand
-- there, and it is a number here.
pub mod Words
pub mod Payloads
pub mod Channel
pub mod FrameRoundTrip
pub mod PayloadRoundTrip
pub mod Reading
pub mod Streaming
use gemini_system.Prelude.{
  ℕ, ◌+◌, ◌%◌, ◌^◌, Bool, true, false, ◌&&◌, ◌||◌, not, List, [], ◌∷◌, ◌++◌, Option, none, some,
  ltb, nat_beq, if◌then◌else◌, length, take, drop,
}
use Words.{byte_at, read_u16, read_u32, write_u16, write_u32}

abbrev pub protocol_version : ℕ
protocol_version = 1

abbrev pub max_payload_size : ℕ
max_payload_size = 65536

abbrev pub max_session_data_size : ℕ
max_session_data_size = 65532

-- "GEMI"
abbrev pub magic : List ℕ
magic = b'G' ∷ (b'E' ∷ (b'M' ∷ (b'I' ∷ [])))

pub record Frame : Type 0 where
  pub version : ℕ
  pub message_type : ℕ
  pub payload : List ℕ

abbrev pub starts_with_magic : List ℕ → Bool
starts_with_magic bytes =
    nat_beq (byte_at bytes 0) b'G'
    && (nat_beq (byte_at bytes 1) b'E'
        && (nat_beq (byte_at bytes 2) b'M' && nat_beq (byte_at bytes 3) b'I'))

unfoldable pub encode_frame : Frame → List ℕ
unfolding write_u16 write_u32
encode_frame f =
    magic
    ++ (write_u16 f.version
        ++ (write_u16 f.message_type ++ (write_u32 (length f.payload % 2 ^ 32) ++ f.payload)))

unfoldable pub decode_frame : List ℕ → Option Frame
unfolding read_u16 read_u32
decode_frame bytes =
    let payload_len = read_u32 bytes 8 in
    if ltb (length bytes) 12
    then none
    else if not (starts_with_magic bytes)
    then none
    else if ltb max_payload_size payload_len || ltb (length bytes) (12 + payload_len)
    then none
    else some record {
      version = read_u16 bytes 4;
      message_type = read_u16 bytes 6;
      payload = take payload_len (drop 12 bytes);
    }

-- `some 0` stands for bytes that can begin no frame.
unfoldable pub complete_frame_length : List ℕ → Option ℕ
unfolding read_u32
complete_frame_length bytes =
    let payload_len = read_u32 bytes 8 in
    if ltb (length bytes) 12
    then none
    else if not (starts_with_magic bytes)
    then some 0
    else if ltb max_payload_size payload_len
    then some 0
    else if ltb (length bytes) (12 + payload_len)
    then none
    else some (12 + payload_len)
