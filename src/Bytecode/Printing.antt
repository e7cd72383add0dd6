-- ===== src/Bytecode/Printing.antt =====
-- `serializeBytecodeText`: a program as text.
use gemini_system.Prelude.{
  ℕ, List, [], ◌∷◌, ◌++◌, Option, none, some, Text, codes, ℤ, nat_beq, pos, if◌then◌else◌,
}
use gemini_system.Vm.Values.{Value, int, flt, str, to_string}
use gemini_system.Vm.Machine.{Instruction, CallFuncOperand}
use gemini_system.Bytecode.Names.{
  Written, no_operand, number, float, quoted, name, call_operand, op_code_name, written_as,
}

abbrev pub backslash : ℕ
backslash = 92

abbrev pub quote : ℕ
quote = 34

unfoldable pub escape_quoted : Text → Text
escape_quoted [] = []
escape_quoted (c ∷ cs) =
    let rest = escape_quoted cs in
    if nat_beq c backslash
    then backslash ∷ (backslash ∷ rest)
    else if nat_beq c quote
    then backslash ∷ (quote ∷ rest)
    else if nat_beq c b'\n'
    then backslash ∷ (b'n' ∷ rest)
    else if nat_beq c 13
    then backslash ∷ (b'r' ∷ rest)
    else if nat_beq c 9
    then backslash ∷ (b't' ∷ rest)
    else c ∷ rest

abbrev pub in_quotes : Text → Text
in_quotes t = quote ∷ (escape_quoted t ++ (quote ∷ []))

abbrev pub call_text : CallFuncOperand → Text
call_text c =
    to_string (pos c.namespace_id)
    ++ (codes ", " ++ (to_string (pos c.function_id) ++ (codes ", " ++ to_string c.arg_count)))

-- `show` is how a stream writes a `double` in its default format, with 6 digits.
module _ {F : Type 0} (show : F → Text) where
  -- The operand, if it is of the type that `std::get` asks for.
  abbrev pub operand_text : Written → Value F → CallFuncOperand → Option Text
  operand_text no_operand v c = some []
  operand_text number (int z) c = some (b' ' ∷ to_string z)
  operand_text number (flt x) c = none
  operand_text number (str t) c = none
  operand_text float (int z) c = none
  operand_text float (flt x) c = some (b' ' ∷ show x)
  operand_text float (str t) c = none
  operand_text quoted (int z) c = none
  operand_text quoted (flt x) c = none
  operand_text quoted (str t) c = some (b' ' ∷ in_quotes t)
  operand_text name (int z) c = none
  operand_text name (flt x) c = none
  operand_text name (str t) c = some (b' ' ∷ t)
  operand_text call_operand v c = some (b' ' ∷ call_text c)

  abbrev pub with_newline : Text → Option Text → Option Text → Option Text
  with_newline opcode none rest = none
  with_newline opcode (some operand) none = none
  with_newline opcode (some operand) (some rest) = some (opcode ++ (operand ++ (b'\n' ∷ rest)))

  -- `none` is an operand of the wrong type.
  unfoldable pub instruction_lines : List (Instruction F) → Option Text
  unfolding op_code_name written_as escape_quoted to_string
  instruction_lines [] = some []
  instruction_lines (i ∷ is) =
      with_newline (op_code_name i.op) (operand_text (written_as i.op) i.operand i.call_func)
        (instruction_lines is)

-- The numbers of the lines, as many as there are instructions, with commas between them.
unfoldable pub line_numbers : {F : Type 0} → List (Instruction F) → List ℤ → Text
unfolding to_string
line_numbers [] lines = []
line_numbers (i ∷ is) [] = []
line_numbers (i ∷ is) (l ∷ []) = to_string l
line_numbers (i ∷ []) (l ∷ (m ∷ ls)) = to_string l
line_numbers (i ∷ (j ∷ is)) (l ∷ (m ∷ ls)) = to_string l ++ (b',' ∷ line_numbers (j ∷ is) (m ∷ ls))

abbrev pub heading : {F : Type 0} → List (Instruction F) → List ℤ → Text
heading program [] = []
heading program (l ∷ ls) = codes "#BASICLINES:" ++ (line_numbers program (l ∷ ls) ++ (b'\n' ∷ []))

abbrev pub behind : Text → Option Text → Option Text
behind t none = none
behind t (some u) = some (t ++ u)

unfoldable pub serialize_bytecode_text :
    {F : Type 0} → (F → Text) → List (Instruction F) → List ℤ → Option Text
unfolding instruction_lines line_numbers
serialize_bytecode_text show program lines =
    behind (heading program lines) (instruction_lines show program)
