-- ===== src/Ipc/Payloads.antt =====
-- The payloads of the messages. A payload that is not exactly as long as its fields say is refused.
use gemini_system.Prelude.{
  ℕ, ◌+◌, ◌%◌, ◌^◌, ◌||◌, not, List, ◌++◌, Option, none, some, ltb, nat_beq, if◌then◌else◌, length,
  take, drop, Text,
}
use gemini_system.Ipc.Words.{read_u16, read_u32, write_u16, write_u32}

abbrev max_payload_size : ℕ
max_payload_size = 65536

abbrev max_session_data_size : ℕ
max_session_data_size = 65532

pub record Handshake : Type 0 where
  pub client_protocol_version : ℕ

unfoldable pub encode_handshake : Handshake → List ℕ
unfolding write_u16
encode_handshake p = write_u16 p.client_protocol_version

unfoldable pub decode_handshake : List ℕ → Option Handshake
unfolding read_u16
decode_handshake payload =
    if not (nat_beq (length payload) 2)
    then none
    else some record { client_protocol_version = read_u16 payload 0 }

pub record HandshakeAck : Type 0 where
  pub server_protocol_version : ℕ
  pub max_sessions : ℕ
  pub build_version : Text

unfoldable pub encode_handshake_ack : HandshakeAck → List ℕ
unfolding write_u16 write_u32
encode_handshake_ack p =
    write_u16 p.server_protocol_version
    ++ (write_u16 p.max_sessions
        ++ (write_u32 (length p.build_version % 2 ^ 32) ++ p.build_version))

unfoldable pub decode_handshake_ack : List ℕ → Option HandshakeAck
unfolding read_u16 read_u32
decode_handshake_ack payload =
    let version_len = read_u32 payload 4 in
    if ltb (length payload) 8
    then none
    else if ltb max_payload_size version_len || not (nat_beq (length payload) (8 + version_len))
    then none
    else some record {
      server_protocol_version = read_u16 payload 0;
      max_sessions = read_u16 payload 2;
      build_version = take version_len (drop 8 payload);
    }

-- `ReserveSessionAck`, `AttachSession` and `AttachSessionAck` each hold one port.
pub record ReserveSessionAck : Type 0 where
  pub session_port : ℕ

pub record AttachSession : Type 0 where
  pub requested_port : ℕ

pub record AttachSessionAck : Type 0 where
  pub session_port : ℕ

unfoldable pub encode_reserve_session_ack : ReserveSessionAck → List ℕ
unfolding write_u32
encode_reserve_session_ack p = write_u32 p.session_port

unfoldable pub decode_reserve_session_ack : List ℕ → Option ReserveSessionAck
unfolding read_u32
decode_reserve_session_ack payload =
    if not (nat_beq (length payload) 4)
    then none
    else some record { session_port = read_u32 payload 0 }

unfoldable pub encode_attach_session : AttachSession → List ℕ
unfolding write_u32
encode_attach_session p = write_u32 p.requested_port

unfoldable pub decode_attach_session : List ℕ → Option AttachSession
unfolding read_u32
decode_attach_session payload =
    if not (nat_beq (length payload) 4)
    then none
    else some record { requested_port = read_u32 payload 0 }

unfoldable pub encode_attach_session_ack : AttachSessionAck → List ℕ
unfolding write_u32
encode_attach_session_ack p = write_u32 p.session_port

unfoldable pub decode_attach_session_ack : List ℕ → Option AttachSessionAck
unfolding read_u32
decode_attach_session_ack payload =
    if not (nat_beq (length payload) 4)
    then none
    else some record { session_port = read_u32 payload 0 }

-- The code is an enum over `uint32_t` that the decoder fills by a cast.
pub record ErrorPayload : Type 0 where
  pub error_code : ℕ
  pub message : Text

unfoldable pub encode_error : ErrorPayload → List ℕ
unfolding write_u32
encode_error p = write_u32 p.error_code ++ (write_u32 (length p.message % 2 ^ 32) ++ p.message)

unfoldable pub decode_error : List ℕ → Option ErrorPayload
unfolding read_u32
decode_error payload =
    let message_len = read_u32 payload 4 in
    if ltb (length payload) 8
    then none
    else if ltb max_payload_size message_len || not (nat_beq (length payload) (8 + message_len))
    then none
    else some
        record { error_code = read_u32 payload 0; message = take message_len (drop 8 payload) }

pub record SessionData : Type 0 where
  pub bytes : List ℕ

unfoldable pub encode_session_data : SessionData → List ℕ
unfolding write_u32
encode_session_data p = write_u32 (length p.bytes % 2 ^ 32) ++ p.bytes

unfoldable pub decode_session_data : List ℕ → Option SessionData
unfolding read_u32
decode_session_data payload =
    let data_len = read_u32 payload 0 in
    if ltb (length payload) 4
    then none
    else if ltb max_session_data_size data_len || not (nat_beq (length payload) (4 + data_len))
    then none
    else some record { bytes = take data_len (drop 4 payload) }
