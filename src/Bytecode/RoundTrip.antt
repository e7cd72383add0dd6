-- ===== src/Bytecode/RoundTrip.antt =====
-- An instruction that is written is read back.
use gemini_system.Prelude.{
  ℕ, true, false, [], ◌∷◌, ◌++◌, none, some, Text, text_eq, ◌≡◌, refl, nat_beq, ℤ, pos, fits_int,
  arith,
}
use gemini_system.Files.Host.{is_empty}
use gemini_system.Vm.Values.{Value, int, str, Numerics, to_string, trim, trim_back}
use gemini_system.Vm.Machine.{OpCode}
use gemini_system.Bytecode.Names.{Written, no_operand, op_code_name, written_as}
use gemini_system.Bytecode.Table.{Reading, nothing, named, target, handler}
use gemini_system.Bytecode.Printing.{operand_text, in_quotes, quote}
use gemini_system.Bytecode.WholeLines.{IsOperandText, parse_line-text, op_code_name-IsWord}
use gemini_system.Bytecode.Lines.{split_label, outside, parse_line, ParsedLine, parse_quoted_string}
use gemini_system.Bytecode.Parser.{ok, Labels, read_operand, plain, no_call, parse_instruction}
use gemini_system.Bytecode.Quoting.{parse_quoted_string-in_quotes}
use gemini_system.Bytecode.Operands.{reading_of, agrees, agrees-written_as, branch_of-op_code_name}
use gemini_system.Bytecode.OperandTexts.{
  stoi-to_string, trim-to_string, trim-in_quotes, is_empty-to_string, parse_nonnegative_int-read,
  trim-space, to_string-IsOperandText, in_quotes-IsOperandText,
}

-- A name: a text that is not empty, that has no blank at its ends and no colon that would make a
-- label, and that does not begin with a quote.
abbrev pub IsName : Text → Type 0
IsName [] = ⊥
IsName (c ∷ cs) =
    (nat_beq c quote ≡ false)
    × (trim (c ∷ cs) ≡ c ∷ cs)
    × (trim_back (c ∷ cs) ≡ c ∷ cs)
    × (split_label outside (c ∷ cs) ≡ none)

parse_quoted_string-name :
    (t : Text) → IsName t → (is_empty t ≡ false) × (parse_quoted_string t ≡ some t)
unfolding parse_quoted_string
parse_quoted_string-name [] h = absurd h
parse_quoted_string-name (c ∷ cs) (plain, h, k, l) = (refl, rw plain refl)

trim-name : (t : Text) → IsName t → trim t ≡ t
trim-name [] h = absurd h
trim-name (c ∷ cs) (plain, h, k, l) = h

name-IsOperandText : (t : Text) → IsName t → IsOperandText (b' ' ∷ t)
name-IsOperandText [] h = absurd h
name-IsOperandText (c ∷ cs) (plain, h, k, l) = (refl, h, k, l)

module _ {F : Type 0} (show : F → Text) (n : Numerics F) where
  -- The operands that an instruction may have, by how the parser reads them. A number is an `int`, and
  -- a target one that is not negative.
  abbrev pub IsReadable : Reading → Value F → Type 0
  IsReadable nothing v = v ≡ int (pos 0)
  IsReadable Reading.number v = (z : ℤ) × (v ≡ int z) × (fits_int z ≡ true)
  IsReadable handler v = (z : ℤ) × (v ≡ int z) × (fits_int z ≡ true)
  IsReadable target v = (k : ℕ) × (v ≡ int (pos k)) × (fits_int (pos k) ≡ true)
  IsReadable Reading.quoted v = (t : Text) × (v ≡ str t)
  IsReadable named v = (t : Text) × (v ≡ str t) × IsName t
  IsReadable Reading.float v = ⊥
  IsReadable Reading.call_operand v = ⊥

  abbrev pub line_with : OpCode → Text → ℕ → ParsedLine
  line_with op operand line = record {
    label = [];
    opcode = op_code_name op;
    operand = operand;
    source_line = line;
  }

  -- The text of the operand, and that it is read back.
  abbrev pub ReadBack : Labels → ℕ → OpCode → Written → Reading → Value F → Type 0
  ReadBack labels line op w reading v =
      (text : Text) × (operand_text show w v no_call ≡ some text)
      × IsOperandText text
      × (read_operand n labels (line_with op (trim text) line) op reading ≡ ok (plain n op v))

  number_lem :
      (labels : Labels) (line : ℕ) (op : OpCode) (z : ℤ)
      → fits_int z ≡ true
      → ReadBack labels line op Written.number Reading.number (int z)
  unfolding read_operand
  number_lem labels line op z fits = (
    b' ' ∷ to_string z,
    refl,
    to_string-IsOperandText z,
    rw (trim-space (to_string z), trim-to_string z, stoi-to_string z fits) refl,
  )

  operand-ReadBack :
      (labels : Labels) (line : ℕ) (op : OpCode) (w : Written) (reading : Reading) (v : Value F)
      → agrees w reading ≡ true
      → IsReadable reading v
      → ReadBack labels line op w reading v
  unfolding read_operand
  operand-ReadBack labels line op no_operand nothing v h e = ([], refl, tt, rw e refl)
  operand-ReadBack labels line op Written.number Reading.number v h (z, e, fits) =
      rw e (number_lem labels line op z fits)
  operand-ReadBack labels line op Written.number handler v h (z, e, fits) = rw e (
    b' ' ∷ to_string z,
    refl,
    to_string-IsOperandText z,
    rw (trim-space (to_string z), trim-to_string z, is_empty-to_string z, stoi-to_string z fits)
        refl,
  )
  operand-ReadBack labels line op Written.number target v h (k, e, fits) = rw e (
    b' ' ∷ to_string (pos k),
    refl,
    to_string-IsOperandText (pos k),
    rw
        (
          trim-space (to_string (pos k)),
          trim-to_string (pos k),
          parse_nonnegative_int-read (to_string (pos k)) k (stoi-to_string (pos k) fits),
        )
        refl,
  )
  operand-ReadBack labels line op Written.quoted Reading.quoted v h (t, e) = rw e (
    b' ' ∷ in_quotes t,
    refl,
    in_quotes-IsOperandText t,
    rw (trim-in_quotes t, parse_quoted_string-in_quotes t) refl,
  )
  operand-ReadBack labels line op Written.quoted named v h (t, e, name) = rw e (
    b' ' ∷ in_quotes t,
    refl,
    in_quotes-IsOperandText t,
    rw (trim-in_quotes t, parse_quoted_string-in_quotes t) refl,
  )
  operand-ReadBack labels line op Written.name named v h (t, e, name) =
      let (full, read) = parse_quoted_string-name t name in
      rw e (
        b' ' ∷ t,
        refl,
        name-IsOperandText t name,
        rw (trim-space t, trim-name t name, full, read) refl,
      )
  operand-ReadBack labels line op w reading v h e = absurd (ground arith)

  -- An instruction that is written as a line is read back, whatever the labels and the number of the
  -- line: the operand has a text, and of the line of the opcode's name and that text the parser makes
  -- the same instruction, with no label. The operand must be one that the opcode's branch reads;
  -- CALL_FUNC and PUSH_FLT are left out.
  pub parse_instruction-printed :
      (labels : Labels) (line : ℕ) (op : OpCode) (v : Value F)
      → IsReadable (reading_of op (written_as op)) v
      → (text : Text) × (operand_text show (written_as op) v no_call ≡ some text)
        × ((parse_line (op_code_name op ++ text)).label ≡ [])
        × (parse_instruction n labels
              (record (parse_line (op_code_name op ++ text)) { source_line = line })
            ≡ ok (plain n op v))
  unfolding parse_instruction
  parse_instruction-printed labels line op v readable =
      let (text, written, shape, read) =
        operand-ReadBack labels line op (written_as op) (reading_of op (written_as op)) v
          (agrees-written_as op) readable in
      let taken = parse_line-text (op_code_name op) text (op_code_name-IsWord op) shape in
      (text, written, rw taken refl, rw (taken, branch_of-op_code_name op) read)
