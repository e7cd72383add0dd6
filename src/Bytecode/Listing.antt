-- ===== src/Bytecode/Listing.antt =====
-- `formatInstructionLine`: an instruction for people to read.
use gemini_system.Prelude.{
  ℕ, zero, suc, List, [], ◌∷◌, ◌++◌, Option, none, some, Text, codes, ℤ, pos, negsuc, get_elem?,
}
use gemini_system.Vm.Values.{Value, int, flt, str, to_string}
use gemini_system.Vm.Machine.{Instruction, CallFuncOperand}
use gemini_system.Bytecode.Names.{
  Written, no_operand, number, float, quoted, name, call_operand, op_code_name, written_as,
}
use gemini_system.Bytecode.Printing.{quote, operand_text}

-- The number of a source line, where it is known.
abbrev pub line_note : Option ℤ → Text
line_note none = []
line_note (some (pos zero)) = []
line_note (some (pos (suc n))) = codes " (line " ++ (to_string (pos (suc n)) ++ codes ")")
line_note (some (negsuc n)) = []

abbrev pub note_in : Option (List ℤ) → ℕ → Text
note_in none ip = []
note_in (some lines) ip = line_note (get_elem? lines ip)

module _ {F : Type 0} (show : F → Text) where
  -- As in the text form, but a quoted text stands as it is.
  abbrev pub shown_operand : Written → Value F → CallFuncOperand → Option Text
  shown_operand quoted (str t) c = some (b' ' ∷ quote ∷ (t ++ (quote ∷ [])))
  shown_operand quoted (int z) c = none
  shown_operand quoted (flt x) c = none
  shown_operand no_operand v c = operand_text show no_operand v c
  shown_operand number v c = operand_text show number v c
  shown_operand float v c = operand_text show float v c
  shown_operand name v c = operand_text show name v c
  shown_operand call_operand v c = operand_text show call_operand v c

  abbrev pub between : Text → Option Text → Text → Option Text
  between front none note = none
  between front (some operand) note = some (front ++ (operand ++ note))

  -- `none` is an operand of the wrong type, for which the code throws.
  unfoldable pub format_instruction_line : ℕ → Instruction F → Option (List ℤ) → Option Text
  unfolding op_code_name written_as to_string
  format_instruction_line ip i loaded =
      between (to_string (pos ip) ++ (codes ": " ++ op_code_name i.op))
        (shown_operand (written_as i.op) i.operand i.call_func) (note_in loaded ip)
