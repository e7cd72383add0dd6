-- ===== src/Vm/IntLines.antt =====
-- A number that is printed is what INPUT reads from its line.
use gemini_system.Prelude.{
  ℕ, zero, suc, ◌+◌, ◌/◌, ◌%◌, ◌<◌, true, false, List, [], ◌∷◌, some, Text, ◌≡◌, refl, ltb, nat_beq,
  ℤ, pos, negsuc, fits_int, arith, inl, inr, Bool-cases,
}
use gemini_system.Vm.Values.{
  int, decimal_from, decimal, to_string, is_digit, is_blank, is_space, scan_digits, trim_front,
  trim_back, trim, skip_space, stoi_from, signed, starts_digit, negated, parse_int_line,
  value_to_string,
}
use gemini_system.Vm.Machine.{Runtime, Callees, OpCode, next, ok, ◌>>=◌, ◌>>◌, return_value, push}
use gemini_system.Vm.Console.{exec_input_int, input_line, line_of, valid_input}

-- Digits, and at least one.
abbrev pub AllDigits : Text → Type 0
AllDigits [] = Unit
AllDigits (c ∷ cs) = (is_digit c ≡ true) × AllDigits cs

is_digit-digit : (k : ℕ) → k < 10 → is_digit (b'0' + k) ≡ true
unfolding is_digit
is_digit-digit k h = ground arith

pub scan_digits-decimal_from :
    (fuel n : ℕ) (acc : Text)
    → n < fuel
    → scan_digits (decimal_from fuel n acc) 0 ≡ scan_digits acc n
unfolding decimal_from scan_digits is_digit
scan_digits-decimal_from zero n acc h = absurd (ground arith)
scan_digits-decimal_from (suc fuel) n acc h = elim (Bool-cases (ltb n 10)) [
  | inl small ↦ rw small (ground arith)
  | inr large ↦ rw large (
      rw (scan_digits-decimal_from fuel (n / 10) ((b'0' + n % 10) ∷ acc) (ground arith))
        (ground arith))
]

abbrev pub IsNumeral : Text → Type 0
IsNumeral t = (starts_digit t ≡ true) × AllDigits t

pub decimal_from-IsNumeral :
    (fuel n : ℕ) (acc : Text) → n < fuel → AllDigits acc → IsNumeral (decimal_from fuel n acc)
unfolding decimal_from
decimal_from-IsNumeral zero n acc h digits = absurd (ground arith)
decimal_from-IsNumeral (suc fuel) n acc h digits =
    let digit = is_digit-digit (n % 10) (ground arith) in
    elim (Bool-cases (ltb n 10)) [
      | inl small ↦ rw small (digit, (digit, digits))
      | inr large ↦ rw large (
          decimal_from-IsNumeral fuel (n / 10) ((b'0' + n % 10) ∷ acc) (ground arith)
            (digit, digits))
    ]

pub trim_back-digits : (t : Text) → AllDigits t → trim_back t ≡ t
unfolding trim_back is_blank is_digit
trim_back-digits [] h = refl
trim_back-digits (c ∷ cs) (h, hs) = rw (trim_back-digits cs hs) (ground arith)

pub trim-numeral : (t : Text) → IsNumeral t → trim t ≡ t
unfolding trim_front is_blank is_digit trim_back
trim-numeral [] h = refl
trim-numeral (c ∷ cs) (starts, h) =
    let full : trim_front (c ∷ cs) ≡ c ∷ cs = ground arith in
    rw (full, trim_back-digits (c ∷ cs) h) refl

pub trim-negative : (t : Text) → IsNumeral t → trim (b'-' ∷ t) ≡ b'-' ∷ t
unfolding trim_front trim_back is_blank
trim-negative [] h = absurd (ground arith)
trim-negative (c ∷ cs) (starts, h) = rw (trim_back-digits (c ∷ cs) h) refl

pub stoi-numeral :
    (t : Text)
    → IsNumeral t
    → fits_int (pos (scan_digits t 0).0) ≡ true
    → stoi_from (skip_space t) ≡ some (pos (scan_digits t 0).0, (scan_digits t 0).1)
unfolding stoi_from skip_space is_space is_digit signed
stoi-numeral [] h fits = absurd (ground arith)
stoi-numeral (c ∷ cs) (starts, h) fits =
    let there : skip_space (c ∷ cs) ≡ c ∷ cs = ground arith in
    let minus : nat_beq c b'-' ≡ false = ground arith in
    let plus : nat_beq c b'+' ≡ false = ground arith in
    rw (there, minus, plus) (rw (fits, starts) refl)

pub stoi-negative :
    (t : Text) (n : ℕ)
    → IsNumeral t
    → scan_digits t 0 ≡ (n, [])
    → fits_int (negated n) ≡ true
    → stoi_from (skip_space (b'-' ∷ t)) ≡ some (negated n, [])
unfolding stoi_from skip_space is_space signed
stoi-negative t n numeral scanned fits = rw (scanned, numeral.0, fits) refl

parse_int_line-numeral :
    (t : Text) (n : ℕ)
    → IsNumeral t
    → scan_digits t 0 ≡ (n, [])
    → fits_int (pos n) ≡ true
    → parse_int_line t ≡ some (pos n)
unfolding parse_int_line
parse_int_line-numeral t n numeral scanned fits =
    let read = rw scanned at (stoi-numeral t numeral (rw scanned fits)) in
    rw (trim-numeral t numeral, read) refl

parse_int_line-negative :
    (t : Text) (n : ℕ)
    → IsNumeral t
    → scan_digits t 0 ≡ (n, [])
    → fits_int (negated n) ≡ true
    → parse_int_line (b'-' ∷ t) ≡ some (negated n)
unfolding parse_int_line
parse_int_line-negative t n numeral scanned fits =
    rw (trim-negative t numeral, scanned, numeral.0, fits) refl

parse_int_line-to_string : (z : ℤ) → fits_int z ≡ true → parse_int_line (to_string z) ≡ some z
unfolding to_string scan_digits
parse_int_line-to_string (pos n) fits =
    parse_int_line-numeral (decimal n) n (decimal_from-IsNumeral (suc n) n [] (ground arith) tt)
      (scan_digits-decimal_from (suc n) n [] (ground arith)) fits
parse_int_line-to_string (negsuc n) fits =
    parse_int_line-negative (decimal (suc n)) (suc n)
      (decimal_from-IsNumeral (suc (suc n)) (suc n) [] (ground arith) tt)
      (scan_digits-decimal_from (suc (suc n)) (suc n) [] (ground arith)) fits

module _ {F : Type 0} where
  -- INPUT of the line that PRINT writes for an `int` gives that `int` back, for every `int` there is:
  -- the line is taken from the input, and the number is pushed.
  pub exec_input_int-value_to_string :
      (env : Callees F) (op : OpCode) (r : Runtime F) (z : ℤ) (lines : List Text)
      → fits_int z ≡ true
      → exec_input_int op (record r { input = value_to_string env.numerics (int z) ∷ lines })
        ≡ (ok next, record r { input = lines; stack = int z ∷ r.stack })
  unfolding exec_input_int ◌>>=◌ ◌>>◌ input_line line_of valid_input return_value push
  exec_input_int-value_to_string env op r z lines fits =
      let shown : value_to_string env.numerics (int z) ≡ to_string z =
        unfold value_to_string in refl in
      rw (shown, parse_int_line-to_string z fits) refl
