-- ===== src/Bytecode/Quoting.antt =====
-- A text in quotes is read back.
use gemini_system.Prelude.{ℕ, false, [], ◌∷◌, ◌++◌, some, Text, ◌≡◌, refl, nat_beq, arith}
use gemini_system.Bytecode.Printing.{backslash, quote, escape_quoted, in_quotes}
use gemini_system.Bytecode.Lines.{unescape, close_quote, parse_quoted_string, cons_some}

close_quote-quoted : (t : Text) → close_quote (t ++ (quote ∷ [])) ≡ some t
unfolding close_quote
close_quote-quoted [] = refl
close_quote-quoted (c ∷ []) = refl
close_quote-quoted (c ∷ (d ∷ cs)) = rw (close_quote-quoted (d ∷ cs)) refl

unescape-plain :
    (c : ℕ) (cs : Text)
    → nat_beq c backslash ≡ false
    → unescape (c ∷ cs) ≡ cons_some (some c) (unescape cs)
unfolding unescape
unescape-plain c [] h = rw h refl
unescape-plain c (d ∷ cs) h = rw h refl

unescape-escape_quoted : (t : Text) → unescape (escape_quoted t) ≡ some t
unfolding unescape escape_quoted
unescape-escape_quoted [] = refl
unescape-escape_quoted (c ∷ cs) =
    ground (arith, unescape-escape_quoted cs, unescape-plain c (escape_quoted cs))

-- Whatever the text, it is read back from its quoted form.
pub parse_quoted_string-in_quotes : (t : Text) → parse_quoted_string (in_quotes t) ≡ some t
unfolding parse_quoted_string
parse_quoted_string-in_quotes t =
    rw (close_quote-quoted (escape_quoted t)) (unescape-escape_quoted t)
