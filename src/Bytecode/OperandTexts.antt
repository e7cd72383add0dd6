-- ===== src/Bytecode/OperandTexts.antt =====
-- The texts of numbers and of quoted texts: they have no blank at their ends, they hide their colons,
-- and a number is read back.
use gemini_system.Prelude.{
  ℕ, suc, true, false, [], ◌∷◌, ◌++◌, none, some, Text, text_eq, ◌≡◌, refl, ℤ, pos, negsuc,
  fits_int, arith,
}
use gemini_system.Files.Host.{is_empty}
use gemini_system.Vm.Values.{
  to_string, decimal, stoi, trim, trim_front, trim_back, is_blank, is_digit, scan_digits,
}
use gemini_system.Vm.IntLines.{
  IsNumeral, AllDigits, trim_back-digits, stoi-numeral, stoi-negative, scan_digits-decimal_from,
  decimal_from-IsNumeral, trim-numeral, trim-negative,
}
use gemini_system.Bytecode.Printing.{in_quotes, quote, escape_quoted}
use gemini_system.Bytecode.WholeLines.{IsOperandText, spaced-IsOperandText}
use gemini_system.Bytecode.Lines.{split_label, outside, inside, parse_nonnegative_int}

pub stoi-to_string : (z : ℤ) → fits_int z ≡ true → stoi (to_string z) ≡ some (z, [])
unfolding to_string scan_digits
stoi-to_string (pos n) fits =
    let scanned : scan_digits (decimal n) 0 ≡ (n, []) =
      scan_digits-decimal_from (suc n) n [] (ground arith) in
    rw scanned at (
      stoi-numeral (decimal n) (decimal_from-IsNumeral (suc n) n [] (ground arith) tt)
        (rw scanned fits))
stoi-to_string (negsuc n) fits =
    stoi-negative (decimal (suc n)) (suc n)
      (decimal_from-IsNumeral (suc (suc n)) (suc n) [] (ground arith) tt)
      (scan_digits-decimal_from (suc (suc n)) (suc n) [] (ground arith)) fits

pub trim-to_string : (z : ℤ) → trim (to_string z) ≡ to_string z
unfolding to_string
trim-to_string (pos n) =
    trim-numeral (decimal n) (decimal_from-IsNumeral (suc n) n [] (ground arith) tt)
trim-to_string (negsuc n) =
    trim-negative (decimal (suc n))
      (decimal_from-IsNumeral (suc (suc n)) (suc n) [] (ground arith) tt)

pub trim_back-quote : (t : Text) → trim_back (t ++ (quote ∷ [])) ≡ t ++ (quote ∷ [])
unfolding trim_back is_blank
trim_back-quote [] = refl
trim_back-quote (c ∷ []) = rw (trim_back-quote []) refl
trim_back-quote (c ∷ (d ∷ cs)) = rw (trim_back-quote (d ∷ cs)) refl

pub trim-in_quotes : (t : Text) → trim (b' ' ∷ in_quotes t) ≡ in_quotes t
unfolding trim_front is_blank
trim-in_quotes t = trim_back-quote (quote ∷ escape_quoted t)

pub numeral-full : (t : Text) → IsNumeral t → is_empty t ≡ false
numeral-full [] h = absurd (ground arith)
numeral-full (c ∷ cs) h = refl

pub is_empty-to_string : (z : ℤ) → is_empty (to_string z) ≡ false
unfolding to_string
is_empty-to_string (pos n) =
    numeral-full (decimal n) (decimal_from-IsNumeral (suc n) n [] (ground arith) tt)
is_empty-to_string (negsuc n) = refl

pub parse_nonnegative_int-read :
    (t : Text) (k : ℕ) → stoi t ≡ some (pos k, []) → parse_nonnegative_int t ≡ some k
unfolding parse_nonnegative_int
parse_nonnegative_int-read t k h = rw h refl

pub trim-space : (t : Text) → trim (b' ' ∷ t) ≡ trim t
unfolding trim_front is_blank
trim-space t = refl

pub split_label-digits : (t : Text) → AllDigits t → split_label outside t ≡ none
unfolding split_label is_digit
split_label-digits [] h = refl
split_label-digits (c ∷ cs) (h, hs) = ground (arith, split_label-digits cs hs)

pub trim_back-numeral :
    (t : Text) → IsNumeral t → (trim_back t ≡ t) × (trim_back (b'-' ∷ t) ≡ b'-' ∷ t)
unfolding trim_back is_blank
trim_back-numeral [] h = absurd (ground arith)
trim_back-numeral (c ∷ cs) h = let same = trim_back-digits (c ∷ cs) h.1 in (same, rw same refl)

pub decimal-IsNumeral : (n : ℕ) → IsNumeral (decimal n)
decimal-IsNumeral n = decimal_from-IsNumeral (suc n) n [] (ground arith) tt

pub trim_back-to_string : (z : ℤ) → trim_back (to_string z) ≡ to_string z
unfolding to_string
trim_back-to_string (pos n) = (trim_back-numeral (decimal n) (decimal-IsNumeral n)).0
trim_back-to_string (negsuc n) = (trim_back-numeral (decimal (suc n)) (decimal-IsNumeral (suc n))).1

pub split_label-to_string : (z : ℤ) → split_label outside (to_string z) ≡ none
unfolding to_string
split_label-to_string (pos n) = split_label-digits (decimal n) (decimal-IsNumeral n).1
split_label-to_string (negsuc n) =
    unfold split_label in
    rw (split_label-digits (decimal (suc n)) (decimal-IsNumeral (suc n)).1) refl

pub to_string-IsOperandText : (z : ℤ) → IsOperandText (b' ' ∷ to_string z)
to_string-IsOperandText z =
    spaced-IsOperandText (to_string z) (is_empty-to_string z) (trim-to_string z)
      (trim_back-to_string z) (split_label-to_string z)

-- A quoted text hides its colons.
pub split_label-escape_quoted :
    (t : Text) → split_label inside (escape_quoted t ++ (quote ∷ [])) ≡ none
unfolding split_label escape_quoted
split_label-escape_quoted [] = refl
split_label-escape_quoted (c ∷ cs) = ground (arith, split_label-escape_quoted cs)

pub in_quotes-IsOperandText : (t : Text) → IsOperandText (b' ' ∷ in_quotes t)
unfolding split_label
in_quotes-IsOperandText t = (
  refl,
  rw (trim-space (in_quotes t)) at (trim-in_quotes t),
  trim_back-quote (quote ∷ escape_quoted t),
  rw (split_label-escape_quoted t) refl,
)
