-- ===== src/Ipc/Reading.antt =====
-- The blocking reader: it takes exactly the bytes of a frame.
use gemini_system.Prelude.{
  ℕ, zero, suc, ◌-◌, ◌%◌, ◌^◌, ◌≤◌, ◌<◌, ◌≡◌, ◌≢◌, refl, ◌∙◌, sym, ap, true, List, [], ◌∷◌, ◌++◌,
  some, arith, length, take, drop, length-append, take-append, drop-append, All, leb, Bool-cases,
  inl, inr, leb→le,
}
use gemini_system.Ipc.{Frame, encode_frame, starts_with_magic, max_payload_size}
use gemini_system.Ipc.Words.{read_u16, read_u32, word16, word32}
use gemini_system.Ipc.FrameRoundTrip.{IsWellformed}
use gemini_system.Ipc.Streaming.{concat}
use gemini_system.Ipc.Channel.{frame_of, read_exact, read_frame}

-- No segment is empty: an empty one is the end of the stream.
abbrev pub IsLive : List (List ℕ) → Type 0
IsLive = All (λ s. s ≢ [])

take-append_long :
    (n : ℕ) (xs ys : List ℕ) → length xs ≤ n → take n (xs ++ ys) ≡ xs ++ take (n - length xs) ys
take-append_long n [] ys h = ap (λ (k : ℕ). take k ys) (omega arith)
take-append_long zero (x ∷ xs) ys h = absurd (omega arith)
take-append_long (suc n) (x ∷ xs) ys h =
    let e : suc n - suc (length xs) ≡ n - length xs = omega arith in
    rw e (ap {B = List ℕ} (λ r. x ∷ r) (take-append_long n xs ys (omega arith)))

drop-append_long :
    (n : ℕ) (xs ys : List ℕ) → length xs ≤ n → drop n (xs ++ ys) ≡ drop (n - length xs) ys
drop-append_long n [] ys h = ap (λ (k : ℕ). drop k ys) (omega arith)
drop-append_long zero (x ∷ xs) ys h = absurd (omega arith)
drop-append_long (suc n) (x ∷ xs) ys h =
    let e : suc n - suc (length xs) ≡ n - length xs = omega arith in
    rw e (drop-append_long n xs ys (omega arith))

take-append_short : (n : ℕ) (xs ys : List ℕ) → n ≤ length xs → take n (xs ++ ys) ≡ take n xs
take-append_short zero xs ys h = refl
take-append_short (suc n) [] ys h = absurd (omega arith)
take-append_short (suc n) (x ∷ xs) ys h =
    ap {B = List ℕ} (λ r. x ∷ r) (take-append_short n xs ys (omega arith))

drop-append_short : (n : ℕ) (xs ys : List ℕ) → n ≤ length xs → drop n (xs ++ ys) ≡ drop n xs ++ ys
drop-append_short zero xs ys h = refl
drop-append_short (suc n) [] ys h = absurd (omega arith)
drop-append_short (suc n) (x ∷ xs) ys h = drop-append_short n xs ys (omega arith)

drop-ne-nil : (n : ℕ) (xs : List ℕ) → n < length xs → drop n xs ≢ []
drop-ne-nil zero [] h = absurd (omega arith)
drop-ne-nil zero (x ∷ xs) h = cc
drop-ne-nil (suc n) [] h = absurd (omega arith)
drop-ne-nil (suc n) (x ∷ xs) h = drop-ne-nil n xs (omega arith)

-- Of a stream that has enough bytes left, `readExact` takes the first `n`, and leaves the others.
pub read_exact_lem :
    (n : ℕ) (stream : List (List ℕ))
    → IsLive stream
    → n ≤ length (concat stream)
    → (stream' : List (List ℕ)) × (read_exact n stream ≡ some (take n (concat stream), stream'))
      × (concat stream' ≡ drop n (concat stream))
      × IsLive stream'
unfolding read_exact
read_exact_lem zero stream live h = (stream, refl, refl, live)
read_exact_lem (suc n) [] live h = absurd (omega arith)
read_exact_lem (suc n) ([] ∷ stream) live h = absurd (live.0 refl)
read_exact_lem (suc n) ((b ∷ bs) ∷ stream) live h = elim (Bool-cases (leb (length bs) n)) [
  | inl all ↦
      let le = leb→le (length bs) n all in
      let (stream', e, left, live') =
        read_exact_lem (n - length bs) stream live.1
          (omega (arith, length-append bs (concat stream))) in
      (
        stream',
        rw (all, e, take-append_long n bs (concat stream) le),
        left ∙ sym (drop-append_long n bs (concat stream) le),
        live',
      )
  | inr part ↦
      let lt : n < length bs = ground arith in
      (
        drop n bs ∷ stream,
        rw (part, take-append_short n bs (concat stream) (omega arith)),
        sym (drop-append_short n bs (concat stream) (omega arith)),
        (drop-ne-nil n bs lt, live.1),
      )
]

-- `read_exact_lem` on a stream whose bytes are known.
read_exact_known :
    (n : ℕ) (stream : List (List ℕ)) (bytes : List ℕ)
    → IsLive stream
    → concat stream ≡ bytes
    → n ≤ length bytes
    → (stream' : List (List ℕ)) × (read_exact n stream ≡ some (take n bytes, stream'))
      × (concat stream' ≡ drop n bytes)
      × IsLive stream'
read_exact_known n stream bytes live e h = rw (← e) (read_exact_lem n stream live (rw e h))

read_frame_steps :
    (stream s1 s2 s3 : List (List ℕ)) (m header payload : List ℕ) (n : ℕ)
    → read_exact 4 stream ≡ some (m, s1)
    → starts_with_magic m ≡ true
    → read_exact 8 s1 ≡ some (header, s2)
    → read_u32 header 4 ≡ n
    → n ≤ max_payload_size
    → read_exact n s2 ≡ some (payload, s3)
    → read_frame stream ≡ some (frame_of header payload, s3)
unfolding read_frame
read_frame_steps stream s1 s2 s3 m header payload n e1 magic e2 en small e3 =
    rw (e1, magic, e2, en, e3) (ground arith)

-- From a stream that begins with the bytes of a frame, in whatever segments, the blocking reader
-- returns that frame and leaves the bytes behind it.
pub read_frame-encode_frame :
    (stream : List (List ℕ)) (f : Frame) (rest : List ℕ)
    → IsLive stream
    → IsWellformed f
    → concat stream ≡ encode_frame f ++ rest
    → (stream' : List (List ℕ)) × (read_frame stream ≡ some (f, stream')) × (concat stream' ≡ rest)
unfolding encode_frame
read_frame-encode_frame stream f rest live w e =
    let (s1, e1, c1, l1) =
      read_exact_known 4 stream (encode_frame f ++ rest) live e (omega arith) in
    let (s2, e2, c2, l2) = read_exact_known 8 s1 _ l1 c1 (omega arith) in
    let (s3, e3, c3, l3) =
      read_exact_known (length f.payload) s2 (f.payload ++ rest) l2 c2
        (omega (arith, length-append f.payload rest)) in
    (
      s3,
      read_frame_steps stream s1 s2 s3 _ _ _ (length f.payload) e1 refl e2
            (unfold read_u32 in
              word32 (length f.payload % 2 ^ 32) (omega arith) ∙ omega (arith, w.payload_fits))
            w.payload_fits e3
          ∙ unfold read_u16 in
            rw (
              take-append f.payload rest,
              word16 f.version w.version_fits,
              word16 f.message_type w.type_fits,
            ),
      c3 ∙ drop-append f.payload rest,
    )
