-- ===== src/Ipc/PayloadRoundTrip.antt =====
-- Every payload is read back from its bytes.
use gemini_system.Prelude.{
  ℕ, ◌+◌, ◌*◌, ◌/◌, ◌%◌, ◌^◌, ◌≤◌, ◌<◌, ◌≡◌, List, some, arith, length, take_all,
}
use gemini_system.Ipc.{Frame, encode_frame, decode_frame, max_session_data_size}
use gemini_system.Ipc.FrameRoundTrip.{decode-encode_alone}
use gemini_system.Ipc.Words.{word16, word32}
use gemini_system.Ipc.Payloads.{
  Handshake, HandshakeAck, ReserveSessionAck, AttachSession, AttachSessionAck, ErrorPayload,
  SessionData, encode_handshake, decode_handshake, encode_handshake_ack, decode_handshake_ack,
  encode_reserve_session_ack, decode_reserve_session_ack, encode_attach_session,
  decode_attach_session, encode_attach_session_ack, decode_attach_session_ack, encode_error,
  decode_error, encode_session_data, decode_session_data,
}

decode-encode_handshake :
    (p : Handshake)
    → p.client_protocol_version < 2 ^ 16
    → decode_handshake (encode_handshake p) ≡ some p
unfolding encode_handshake decode_handshake
decode-encode_handshake p h = rw (word16 p.client_protocol_version h)

-- The length field of a text or of data that is short enough.
length_word :
    (xs : List ℕ)
    → length xs ≤ 65536
    → length xs % 2 ^ 32 / 2 ^ 24 % 256 * 2 ^ 24
        + length xs % 2 ^ 32 / 2 ^ 16 % 256 * 2 ^ 16
        + length xs % 2 ^ 32 / 2 ^ 8 % 256 * 2 ^ 8
        + length xs % 2 ^ 32 % 256
      ≡ length xs
length_word xs h = omega arith

-- A handshake answer whose fields fit is read back from its payload.
pub decode-encode_handshake_ack :
    (p : HandshakeAck)
    → p.server_protocol_version < 2 ^ 16
    → p.max_sessions < 2 ^ 16
    → length p.build_version ≤ 65536
    → decode_handshake_ack (encode_handshake_ack p) ≡ some p
unfolding encode_handshake_ack decode_handshake_ack
decode-encode_handshake_ack p hs hm hl =
    rw
      (
        length_word p.build_version hl,
        word16 p.server_protocol_version hs,
        word16 p.max_sessions hm,
        take_all p.build_version,
      )
      (ground arith)

decode-encode_port :
    (p : ReserveSessionAck)
    → p.session_port < 2 ^ 32
    → decode_reserve_session_ack (encode_reserve_session_ack p) ≡ some p
unfolding encode_reserve_session_ack decode_reserve_session_ack
decode-encode_port p h = rw (word32 p.session_port h)

decode-encode_attach :
    (p : AttachSession)
    → p.requested_port < 2 ^ 32
    → decode_attach_session (encode_attach_session p) ≡ some p
unfolding encode_attach_session decode_attach_session
decode-encode_attach p h = rw (word32 p.requested_port h)

decode-encode_attach_ack :
    (p : AttachSessionAck)
    → p.session_port < 2 ^ 32
    → decode_attach_session_ack (encode_attach_session_ack p) ≡ some p
unfolding encode_attach_session_ack decode_attach_session_ack
decode-encode_attach_ack p h = rw (word32 p.session_port h)

-- An error whose code fits and whose message is at most 65536 bytes long is read back from its
-- payload.
pub decode-encode_error :
    (p : ErrorPayload)
    → p.error_code < 2 ^ 32
    → length p.message ≤ 65536
    → decode_error (encode_error p) ≡ some p
unfolding encode_error decode_error
decode-encode_error p hc hl =
    rw (length_word p.message hl, word32 p.error_code hc, take_all p.message) (ground arith)

decode-encode_session_data :
    (p : SessionData)
    → length p.bytes ≤ 65532
    → decode_session_data (encode_session_data p) ≡ some p
unfolding encode_session_data decode_session_data
decode-encode_session_data p hl =
    rw (length_word p.bytes (omega arith), take_all p.bytes) (ground arith)

length-encode_session_data : (p : SessionData) → length (encode_session_data p) ≡ 4 + length p.bytes
unfolding encode_session_data
length-encode_session_data p = omega arith

-- A chunk of session data of the largest size that is allowed, or less, fits into a frame, and comes
-- out of the frame and of its payload as it went in.
pub session_data_frame :
    (p : SessionData) (message_type : ℕ)
    → message_type < 2 ^ 16
    → length p.bytes ≤ max_session_data_size
    → (decode_frame (
          encode_frame
            record { version = 1; message_type = message_type; payload = encode_session_data p })
        ≡ some record { version = 1; message_type = message_type; payload = encode_session_data p })
      × (decode_session_data (encode_session_data p) ≡ some p)
session_data_frame p message_type ht hl =
    let f : Frame = record {
      version = 1;
      message_type = message_type;
      payload = encode_session_data p;
    } in
    (
      decode-encode_alone f record {
        version_fits = omega arith;
        type_fits = ht;
        payload_fits = omega (arith, length-encode_session_data p);
      },
      decode-encode_session_data p hl,
    )
