-- ===== src/Ipc/Streaming.antt =====
-- A stream of frames is cut up as it was put together, however its bytes arrive.
use gemini_system.Prelude.{
  ℕ, zero, suc, ◌+◌, ◌<◌, ◌≡◌, refl, ◌∙◌, sym, ap, List, [], ◌∷◌, ◌++◌, some, arith, length, take,
  drop, take-append, drop-append, All,
}
use mathlib.Core.List.{append_assoc, append-nil}
use gemini_system.Ipc.{Frame, encode_frame, decode_frame}
use gemini_system.Ipc.FrameRoundTrip.{
  IsWellformed, decode-encode_alone, complete-encode_frame, complete-encode_prefix,
}
use gemini_system.Ipc.Channel.{
  ReadEvent, received, would_block, frame_ready, incomplete, frame_status, take_frame,
  try_read_frame,
}

abbrev pub arrivals : List (List ℕ) → List ReadEvent
arrivals [] = would_block ∷ []
arrivals (bytes ∷ more) = received bytes ∷ arrivals more

abbrev pub concat : List (List ℕ) → List ℕ
concat [] = []
concat (bytes ∷ more) = bytes ++ concat more

-- The pieces in which bytes arrive make no difference.
pub try_read-arrivals :
    (pieces : List (List ℕ)) (buffer : List ℕ)
    → try_read_frame (arrivals pieces) buffer ≡ try_read_frame [] (buffer ++ concat pieces)
unfolding try_read_frame
try_read-arrivals [] buffer = rw (append-nil buffer)
try_read-arrivals (bytes ∷ more) buffer =
    try_read-arrivals more (buffer ++ bytes)
    ∙ ap (try_read_frame []) (append_assoc buffer bytes (concat more))

length-encode_frame : (f : Frame) → length (encode_frame f) ≡ 12 + length f.payload
unfolding encode_frame
length-encode_frame f = omega arith

take_frame-pos :
    (buffer : List ℕ) (n : ℕ)
    → 0 < n
    → take_frame buffer (some n) ≡ (frame_status (decode_frame (take n buffer)), drop n buffer)
take_frame-pos buffer zero h = absurd (omega arith)
take_frame-pos buffer (suc n) h = refl

-- With the bytes of a frame at the front of the buffer, exactly these are taken, and the frame is
-- returned.
pub try_read-encode_frame :
    (f : Frame) (rest : List ℕ)
    → IsWellformed f
    → try_read_frame [] (encode_frame f ++ rest) ≡ (frame_ready f, rest)
unfolding try_read_frame
try_read-encode_frame f rest w = rw (
  complete-encode_frame f rest w,
  take_frame-pos (encode_frame f ++ rest) (12 + length f.payload) (omega arith),
  sym (length-encode_frame f),
  take-append (encode_frame f) rest,
  drop-append (encode_frame f) rest,
  decode-encode_alone f w,
)

-- A part of a frame is left in the buffer until the rest of it is there.
try_read-encode_prefix :
    (f : Frame) (n : ℕ)
    → IsWellformed f
    → n < 12 + length f.payload
    → try_read_frame [] (take n (encode_frame f)) ≡ (incomplete, take n (encode_frame f))
unfolding try_read_frame
try_read-encode_prefix f n w h = rw (complete-encode_prefix f n w h)

-- Reads without new bytes take the frames of the buffer one by one, until they leave `rest`.
pub data Drains : List ℕ → List Frame → List ℕ → Type 0 where
  stop : {b : List ℕ} → try_read_frame [] b ≡ (incomplete, b) → Drains b [] b
  next :
      {b b' rest : List ℕ} {f : Frame} {fs : List Frame}
      → try_read_frame [] b ≡ (frame_ready f, b')
      → Drains b' fs rest
      → Drains b (f ∷ fs) rest

abbrev pub encode_all : List Frame → List ℕ → List ℕ
encode_all [] tail = tail
encode_all (f ∷ fs) tail = encode_frame f ++ encode_all fs tail

Drains-encode_all :
    (fs : List Frame) (g : Frame) (n : ℕ)
    → All IsWellformed fs
    → IsWellformed g
    → n < 12 + length g.payload
    → Drains (encode_all fs (take n (encode_frame g))) fs (take n (encode_frame g))
Drains-encode_all [] g n all w h = stop (try_read-encode_prefix g n w h)
Drains-encode_all (f ∷ fs) g n all w h =
    next (try_read-encode_frame f (encode_all fs (take n (encode_frame g))) all.0)
      (Drains-encode_all fs g n all.1 w h)

-- When the bytes of some frames and a part of one more arrive, in whatever pieces, the first read
-- returns the first frame, and further reads return the others in order and then leave exactly
-- that part in the buffer.
pub stream_delivery :
    (pieces : List (List ℕ)) (f : Frame) (fs : List Frame) (g : Frame) (n : ℕ)
    → All IsWellformed (f ∷ fs)
    → IsWellformed g
    → n < 12 + length g.payload
    → concat pieces ≡ encode_all (f ∷ fs) (take n (encode_frame g))
    → (try_read_frame (arrivals pieces) []
        ≡ (frame_ready f, encode_all fs (take n (encode_frame g))))
      × Drains (encode_all fs (take n (encode_frame g))) fs (take n (encode_frame g))
stream_delivery pieces f fs g n all w h e =
    let rest = encode_all fs (take n (encode_frame g)) in
    (
      try_read-arrivals pieces [] ∙ (ap (try_read_frame []) e ∙ try_read-encode_frame f rest all.0),
      Drains-encode_all fs g n all.1 w h,
    )
