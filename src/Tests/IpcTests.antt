-- ===== src/Tests/IpcTests.antt =====
-- Tests of Ipc.
use gemini_system.Prelude.{ℕ, ◌≡◌, refl, List, [], ◌∷◌, ◌++◌, none, some, arith, take, drop, codes}
use gemini_system.Ipc.{Frame, encode_frame, decode_frame, complete_frame_length}
use gemini_system.Ipc.FrameRoundTrip.{
  IsWellformed, decode-encode_frame, encode-decode_frame, complete-encode_prefix,
}
use gemini_system.Ipc.Payloads.{
  HandshakeAck, ErrorPayload, encode_session_data, decode_session_data,
}
use gemini_system.Ipc.PayloadRoundTrip.{session_data_frame}
use gemini_system.Ipc.Channel.{try_read_frame, read_frame, frame_ready}
use gemini_system.Ipc.Streaming.{concat, arrivals, Drains, stream_delivery}
use gemini_system.Ipc.Reading.{read_frame-encode_frame}

abbrev ping : Frame
ping = record { version = 1; message_type = 3; payload = [] }

abbrev input : Frame
input = record { version = 1; message_type = 14; payload = 0 ∷ (0 ∷ (0 ∷ (1 ∷ (b'x' ∷ [])))) }

ping-IsWellformed : IsWellformed ping
ping-IsWellformed = record {
  version_fits = omega arith;
  type_fits = omega arith;
  payload_fits = omega arith;
}

input-IsWellformed : IsWellformed input
input-IsWellformed = record {
  version_fits = omega arith;
  type_fits = omega arith;
  payload_fits = omega arith;
}

ping_bytes : encode_frame ping ≡ codes "GEMI" ++ (0 ∷ (1 ∷ (0 ∷ (3 ∷ (0 ∷ (0 ∷ (0 ∷ (0 ∷ []))))))))
unfolding encode_frame
ping_bytes = refl

bad_magic : decode_frame (codes "GEMX" ++ (0 ∷ (1 ∷ (0 ∷ (3 ∷ (0 ∷ (0 ∷ (0 ∷ (0 ∷ []))))))))) ≡ none
unfolding decode_frame
bad_magic = refl

decode-encode_frame_example : decode_frame (encode_frame input ++ (7 ∷ [])) ≡ some input
decode-encode_frame_example = decode-encode_frame input (7 ∷ []) input-IsWellformed

decoded_input : decode_frame (encode_frame input ++ (7 ∷ [])) ≡ some input
decoded_input = decode-encode_frame input (7 ∷ []) input-IsWellformed

encode-decode_frame_example :
    ◌≡◌ {A = List ℕ}
      (encode_frame input ++ (7 ∷ []))
      (encode_frame input ++ drop 5 (drop 12 (encode_frame input ++ (7 ∷ []))))
unfolding encode_frame
encode-decode_frame_example = encode-decode_frame _ input (omega arith) decoded_input

complete-encode_prefix_example : complete_frame_length (take 14 (encode_frame input)) ≡ none
complete-encode_prefix_example = complete-encode_prefix input 14 input-IsWellformed (omega arith)

abbrev pieces : List (List ℕ)
pieces =
    take 5 (encode_frame input) ∷ ((drop 5 (encode_frame input) ++ take 3 (encode_frame ping)) ∷ [])

stream_delivery_example :
    (try_read_frame (arrivals pieces) [] ≡ (frame_ready input, take 3 (encode_frame ping)))
    × Drains (take 3 (encode_frame ping)) [] (take 3 (encode_frame ping))
unfolding encode_frame
stream_delivery_example =
    stream_delivery pieces input [] ping 3 (input-IsWellformed, tt) ping-IsWellformed (omega arith)
      refl

read_frame-encode_frame_example :
    (stream' : List (List ℕ)) × (read_frame
        (take 5 (encode_frame input) ∷ (drop 5 (encode_frame input) ∷ []))
      ≡ some (input, stream'))
    × (concat stream' ≡ [])
unfolding encode_frame
read_frame-encode_frame_example =
    read_frame-encode_frame (take 5 (encode_frame input) ∷ (drop 5 (encode_frame input) ∷ [])) input
      [] ((cc), ((cc), tt)) input-IsWellformed refl

abbrev ack : HandshakeAck
ack = record { server_protocol_version = 1; max_sessions = 16; build_version = codes "1.0.0" }

abbrev failure : ErrorPayload
failure = record { error_code = 5; message = codes "no session" }

session_data_frame_example :
    (decode_frame (
        encode_frame (record {
          version = 1;
          message_type = 14;
          payload = encode_session_data record { bytes = codes "LIST" };
        }))
      ≡ some record {
        version = 1;
        message_type = 14;
        payload = encode_session_data record { bytes = codes "LIST" };
      })
    × (decode_session_data (encode_session_data record { bytes = codes "LIST" })
        ≡ some record { bytes = codes "LIST" })
session_data_frame_example =
    session_data_frame record { bytes = codes "LIST" } 14 (omega arith) (omega arith)
