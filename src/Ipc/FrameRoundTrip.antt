-- ===== src/Ipc/FrameRoundTrip.antt =====
-- A frame is read back from its bytes, whatever follows them.
use mathlib.Core.List.{append-nil}
use gemini_system.Prelude.{
  ℕ, suc, ◌+◌, ◌*◌, ◌/◌, ◌%◌, ◌^◌, ◌≤◌, ◌<◌, ◌≡◌, refl, List, [], ◌∷◌, ◌++◌, none, some,
  if◌then◌else◌, arith, ltb, ltb→lt, ◌-◌, Bool-cases, inl, inr, length, length-append, take, drop,
  take-append, length-take_le, All, ap, ◌∙◌, sym,
}
use gemini_system.Ipc.{Frame, encode_frame, decode_frame, complete_frame_length, max_payload_size}
use gemini_system.Ipc.Words.{word16, word32, IsByte}

-- What the fields of a frame hold, and how long a payload the decoder takes.
pub record IsWellformed (f : Frame) : Type 0 where
  pub version_fits : f.version < 2 ^ 16
  pub type_fits : f.message_type < 2 ^ 16
  pub payload_fits : length f.payload ≤ max_payload_size

-- Twelve bytes of a header that begins with the magic, and what follows.
abbrev pub with_header : ℕ → ℕ → ℕ → ℕ → ℕ → ℕ → ℕ → ℕ → List ℕ → List ℕ
with_header v0 v1 t0 t1 l0 l1 l2 l3 body =
    b'G' ∷ (b'E' ∷ (b'M' ∷ (b'I' ∷ (v0 ∷ (v1 ∷ (t0 ∷ (t1 ∷ (l0 ∷ (l1 ∷ (l2 ∷ (l3 ∷ body)))))))))))

abbrev pub word : ℕ → ℕ → ℕ → ℕ → ℕ
word l0 l1 l2 l3 = l0 * 2 ^ 24 + l1 * 2 ^ 16 + l2 * 2 ^ 8 + l3

module _ (v0 v1 t0 t1 l0 l1 l2 l3 n : ℕ) (body : List ℕ) (e : word l0 l1 l2 l3 ≡ n) where
  decode_header :
      n ≤ max_payload_size
      → n ≤ length body
      → decode_frame (with_header v0 v1 t0 t1 l0 l1 l2 l3 body)
        ≡ some record {
          version = v0 * 2 ^ 8 + v1;
          message_type = t0 * 2 ^ 8 + t1;
          payload = take n body;
        }
  unfolding decode_frame
  decode_header small enough = rw e (ground arith)

  complete_header :
      n ≤ max_payload_size
      → complete_frame_length (with_header v0 v1 t0 t1 l0 l1 l2 l3 body)
        ≡ (if ltb (length body) n then none else some (12 + n))
  unfolding complete_frame_length
  complete_header small = rw e (ground arith)

length_fits : (f : Frame) → IsWellformed f → length f.payload % 2 ^ 32 ≡ length f.payload
length_fits f w = omega (arith, w.payload_fits)

-- A frame whose fields fit and whose payload is not too long is read back from its bytes, whatever
-- bytes follow them.
pub decode-encode_frame :
    (f : Frame) (rest : List ℕ) → IsWellformed f → decode_frame (encode_frame f ++ rest) ≡ some f
unfolding encode_frame
decode-encode_frame f rest w = rw (
  decode_header _ _ _ _ _ _ _ _ (length f.payload) (f.payload ++ rest)
      (word32 (length f.payload % 2 ^ 32) (omega arith) ∙ length_fits f w) w.payload_fits
      (omega (arith, length-append f.payload rest)),
  word16 f.version w.version_fits,
  word16 f.message_type w.type_fits,
  take-append f.payload rest,
)

pub decode-encode_alone : (f : Frame) → IsWellformed f → decode_frame (encode_frame f) ≡ some f
decode-encode_alone f w =
    ap decode_frame (sym (append-nil (encode_frame f))) ∙ decode-encode_frame f [] w

-- A frame with a longer payload is encoded, but its bytes are never accepted.
pub decode-encode_oversized :
    (f : Frame) (rest : List ℕ)
    → max_payload_size < length f.payload
    → length f.payload < 2 ^ 32
    → decode_frame (encode_frame f ++ rest) ≡ none
unfolding encode_frame decode_frame
decode-encode_oversized f rest long small =
    rw (word32 (length f.payload % 2 ^ 32) (omega arith)) (ground arith)

data Header : List ℕ → Type 0 where
  header :
      (m0 m1 m2 m3 v0 v1 t0 t1 l0 l1 l2 l3 : ℕ) (body : List ℕ)
      → Header
          (m0 ∷ (m1 ∷ (m2 ∷ (m3 ∷ (v0 ∷ (v1 ∷ (t0 ∷ (t1 ∷ (l0 ∷ (l1 ∷ (l2 ∷ (l3 ∷ body))))))))))))

Header-of_length : (bytes : List ℕ) → 12 ≤ length bytes → Header bytes
Header-of_length
      (m0 ∷ (m1 ∷ (m2 ∷ (m3 ∷ (v0 ∷ (v1 ∷ (t0 ∷ (t1 ∷ (l0 ∷ (l1 ∷ (l2 ∷ (l3 ∷ body)))))))))))) h =
    header m0 m1 m2 m3 v0 v1 t0 t1 l0 l1 l2 l3 body
Header-of_length _ h = absurd (omega arith)

take-append_drop : (n : ℕ) (xs : List ℕ) → take n xs ++ drop n xs ≡ xs
take-append_drop Prim.Native.Nat.zero xs = refl
take-append_drop (suc n) [] = refl
take-append_drop (suc n) (x ∷ xs) = ap {B = List ℕ} (λ r. x ∷ r) (take-append_drop n xs)

split16 :
    (a b : ℕ)
    → a < 256
    → b < 256
    → ((a * 2 ^ 8 + b) / 2 ^ 8 % 256 ≡ a) × ((a * 2 ^ 8 + b) % 256 ≡ b)
split16 a b ha hb = (omega arith, omega arith)

split32 :
    (a b c d : ℕ)
    → a < 256
    → b < 256
    → c < 256
    → d < 256
    → (word a b c d / 2 ^ 24 % 256 ≡ a)
      × (word a b c d / 2 ^ 16 % 256 ≡ b)
      × (word a b c d / 2 ^ 8 % 256 ≡ c)
      × (word a b c d % 256 ≡ d)
split32 a b c d ha hb hc hd = (omega arith, omega arith, omega arith, omega arith)

module _ (m0 m1 m2 m3 v0 v1 t0 t1 l0 l1 l2 l3 : ℕ) (body : List ℕ) (f : Frame) where
  abbrev raw : List ℕ
  raw = m0 ∷ (m1 ∷ (m2 ∷ (m3 ∷ (v0 ∷ (v1 ∷ (t0 ∷ (t1 ∷ (l0 ∷ (l1 ∷ (l2 ∷ (l3 ∷ body)))))))))))

  decode_frame_inverse :
      decode_frame raw ≡ some f
      → ((m0 ≡ b'G') × (m1 ≡ b'E') × (m2 ≡ b'M') × (m3 ≡ b'I'))
        × (word l0 l1 l2 l3 ≤ max_payload_size)
        × (word l0 l1 l2 l3 ≤ length body)
        × (f.version ≡ v0 * 2 ^ 8 + v1)
        × (f.message_type ≡ t0 * 2 ^ 8 + t1)
        × (f.payload ≡ take (word l0 l1 l2 l3) body)
  unfolding decode_frame
  decode_frame_inverse h = ground arith

  encode_decoded :
      All IsByte raw
      → decode_frame raw ≡ some f
      → raw ≡ encode_frame f ++ drop (length f.payload) (drop 12 raw)
  unfolding encode_frame
  encode_decoded (_, (_, (_, (_, (hv0, (hv1, (ht0, (ht1, (h0, (h1, (h2, (h3, _)))))))))))) h =
      let ((e0, e1, e2, e3), small, enough, ev, et, ep) = decode_frame_inverse h in
      let n = word l0 l1 l2 l3 in
      let el : length (take n body) ≡ n = length-take_le n body enough in
      let fits : n % 2 ^ 32 ≡ n = omega arith in
      let (sv0, sv1) = split16 v0 v1 hv0 hv1 in
      let (st0, st1) = split16 t0 t1 ht0 ht1 in
      let (s0, s1, s2, s3) = split32 l0 l1 l2 l3 h0 h1 h2 h3 in
      rw (
        e0,
        e1,
        e2,
        e3,
        ev,
        et,
        ep,
        el,
        fits,
        sv0,
        sv1,
        st0,
        st1,
        s0,
        s1,
        s2,
        s3,
        take-append_drop n body,
      )

decoded_length : (bytes : List ℕ) (f : Frame) → decode_frame bytes ≡ some f → 12 ≤ length bytes
unfolding decode_frame
decoded_length bytes f h = ground arith

length-take_bound : (n : ℕ) (xs : List ℕ) → length (take n xs) ≤ n
length-take_bound Prim.Native.Nat.zero xs = omega arith
length-take_bound (suc n) [] = omega arith
length-take_bound (suc n) (x ∷ xs) = omega (arith, length-take_bound n xs)

-- Whatever bytes the decoder accepts are the encoding of the frame that it returns, followed by
-- the bytes behind it: no other spelling of a frame is accepted.
pub encode-decode_frame :
    (bytes : List ℕ) (f : Frame)
    → All IsByte bytes
    → decode_frame bytes ≡ some f
    → bytes ≡ encode_frame f ++ drop (length f.payload) (drop 12 bytes)
encode-decode_frame bytes f all h = go (Header-of_length bytes (decoded_length bytes f h)) all h
  where
    go :
        {b : List ℕ}
        → Header b
        → All IsByte b
        → decode_frame b ≡ some f
        → b ≡ encode_frame f ++ drop (length f.payload) (drop 12 b)
    go (header m0 m1 m2 m3 v0 v1 t0 t1 l0 l1 l2 l3 body) a e =
        encode_decoded m0 m1 m2 m3 v0 v1 t0 t1 l0 l1 l2 l3 body f a e

-- The length of the first frame is found in its bytes, whatever follows them.
pub complete-encode_frame :
    (f : Frame) (rest : List ℕ)
    → IsWellformed f
    → complete_frame_length (encode_frame f ++ rest) ≡ some (12 + length f.payload)
unfolding encode_frame
complete-encode_frame f rest w =
    rw
      (complete_header _ _ _ _ _ _ _ _ (length f.payload) (f.payload ++ rest)
        (word32 (length f.payload % 2 ^ 32) (omega arith) ∙ length_fits f w) w.payload_fits)
      (ground (arith, length-append f.payload rest))

complete_short : (bytes : List ℕ) → length bytes < 12 → complete_frame_length bytes ≡ none
unfolding complete_frame_length
complete_short bytes h = ground arith

-- A part of a frame's bytes is no complete frame, and is not taken for a broken one.
pub complete-encode_prefix :
    (f : Frame) (n : ℕ)
    → IsWellformed f
    → n < 12 + length f.payload
    → complete_frame_length (take n (encode_frame f)) ≡ none
complete-encode_prefix f n w h = elim (Bool-cases (ltb n 12)) [
  | inl short ↦
      complete_short (take n (encode_frame f))
        (omega (arith, ltb→lt n 12 short, length-take_bound n (encode_frame f)))
  | inr long ↦
      let k = n - 12 in
      let e : n ≡ suc (suc (suc (suc (suc (suc (suc (suc (suc (suc (suc (suc k))))))))))) =
        ground arith in
      rw e (
        unfold encode_frame in
        rw
          (complete_header _ _ _ _ _ _ _ _ (length f.payload) (take k f.payload)
            (word32 (length f.payload % 2 ^ 32) (omega arith) ∙ length_fits f w) w.payload_fits)
          (ground (arith, length-take_bound k f.payload)))
]
