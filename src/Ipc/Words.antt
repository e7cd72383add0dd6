-- ===== src/Ipc/Words.antt =====
-- `readU16`, `readU32`, `writeU16` and `writeU32`: big-endian words.
use gemini_system.Prelude.{ℕ, zero, suc, ◌+◌, ◌*◌, ◌/◌, ◌%◌, ◌^◌, ◌<◌, ◌≡◌, List, [], ◌∷◌, arith}

-- `data[i]`; the callers have checked that the byte is there.
abbrev pub byte_at : List ℕ → ℕ → ℕ
byte_at [] i = 0
byte_at (b ∷ bs) zero = b
byte_at (b ∷ bs) (suc i) = byte_at bs i

-- The word that bytes spell: a shift and an or of bytes is a sum of multiples.
unfoldable pub read_u16 : List ℕ → ℕ → ℕ
read_u16 bytes i = byte_at bytes i * 2 ^ 8 + byte_at bytes (i + 1)

unfoldable pub read_u32 : List ℕ → ℕ → ℕ
read_u32 bytes i =
    byte_at bytes i * 2 ^ 24
    + byte_at bytes (i + 1) * 2 ^ 16
    + byte_at bytes (i + 2) * 2 ^ 8
    + byte_at bytes (i + 3)

unfoldable pub write_u16 : ℕ → List ℕ
write_u16 v = (v / 2 ^ 8 % 256) ∷ ((v % 256) ∷ [])

unfoldable pub write_u32 : ℕ → List ℕ
write_u32 v = (v / 2 ^ 24 % 256) ∷ ((v / 2 ^ 16 % 256) ∷ ((v / 2 ^ 8 % 256) ∷ ((v % 256) ∷ [])))

abbrev pub IsByte : ℕ → Type 0
IsByte b = b < 256

-- The two bytes of a `uint16_t` spell it, and so do the four of a `uint32_t`.
pub word16 : (v : ℕ) → v < 2 ^ 16 → v / 2 ^ 8 % 256 * 2 ^ 8 + v % 256 ≡ v
word16 v h = omega arith

pub word32 :
    (v : ℕ)
    → v < 2 ^ 32
    → v / 2 ^ 24 % 256 * 2 ^ 24 + v / 2 ^ 16 % 256 * 2 ^ 16 + v / 2 ^ 8 % 256 * 2 ^ 8 + v % 256 ≡ v
word32 v h = omega arith
