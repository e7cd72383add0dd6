-- ===== src/Tests/BytecodeTests.antt =====
-- Tests of Bytecode.
use gemini_system.Prelude.{
  ◌≡◌, refl, [], ◌∷◌, ◌++◌, List, none, some, Text, codes, ℤ, pos, text_beq,
}
use gemini_system.Prelude.Assoc.{find, put}
use gemini_system.Vm.Values.{int, str, to_string}
use gemini_system.Vm.Machine.{OpCode}
use gemini_system.Bytecode.Lines.{parse_line}
use gemini_system.Bytecode.Names.{written_as, op_code_name}
use gemini_system.Bytecode.Listing.{format_instruction_line}
use gemini_system.Bytecode.Printing.{operand_text, serialize_bytecode_text}
use gemini_system.Bytecode.Parser.{
  parse, ok, err, requires_operand, no_call, parse_instruction, plain,
}
use gemini_system.Bytecode.RoundTrip.{parse_instruction-printed}
use gemini_system.Tests.VmTests.{whole_numbers, counting, at}

-- A program with a text, and a jump to a label.
abbrev labelled_text : Text
labelled_text = codes "PUSH_STR \"A:B\"\nAGAIN: PRINT_STR\nJUMP AGAIN\n"

labelled_read :
    parse whole_numbers labelled_text
    ≡ ok (record {
      program =
          at OpCode.push_str (str (codes "A:B"))
          ∷ at OpCode.print_str (int (pos 0))
          ∷ at OpCode.jump (int (pos 1))
          ∷ [];
      labels = (codes "AGAIN", 1) ∷ [];
      source_line_per_instr = pos 1 ∷ pos 2 ∷ pos 3 ∷ [];
    })
unfolding parse text_beq find put
labelled_read = refl

abbrev counting_text : Text
counting_text =
    codes "#BASICLINES:10,10,10,10,10,20,20,30,30\nPUSH_INT 1\nSTORE_VAR i\nPUSH_INT 3\n"
    ++ codes "PUSH_INT 1\nFOR_SETUP I\nLOAD_VAR I\nPRINT_VAL\nFOR_NEXT I\nHALT\n"

abbrev counting_lines : List ℤ
counting_lines = pos 10 ∷ pos 10 ∷ pos 10 ∷ pos 10 ∷ pos 10 ∷ pos 20 ∷ pos 20 ∷ pos 30 ∷ pos 30 ∷ []

counting_written : serialize_bytecode_text to_string counting counting_lines ≡ some counting_text
unfolding serialize_bytecode_text
counting_written = refl

counting_read :
    parse whole_numbers counting_text
    ≡ ok (record { program = counting; labels = []; source_line_per_instr = counting_lines })
unfolding parse text_beq find put
counting_read = refl

-- NEXT without a variable is written, and its text is not read.
nameless_next :
    (serialize_bytecode_text to_string (at OpCode.for_next (str []) ∷ []) []
      ≡ some (codes "FOR_NEXT \n"))
    × (parse whole_numbers (codes "FOR_NEXT \n") ≡ err (requires_operand 1))
unfolding serialize_bytecode_text parse text_beq find
nameless_next = (refl, refl)

parse_instruction-printed_example :
    (text : Text) × (operand_text to_string (written_as OpCode.push_int) (int (pos 42)) no_call
      ≡ some text)
    × ((parse_line (op_code_name OpCode.push_int ++ text)).label ≡ [])
    × (parse_instruction whole_numbers []
          (record (parse_line (op_code_name OpCode.push_int ++ text)) { source_line = 3 })
        ≡ ok (plain whole_numbers OpCode.push_int (int (pos 42))))
unfolding written_as
parse_instruction-printed_example =
    parse_instruction-printed to_string whole_numbers [] 3 OpCode.push_int (int (pos 42))
      (pos 42, refl, refl)

listed :
    (format_instruction_line to_string 1
        (at OpCode.push_str (str (codes "A\"B")))
        (some counting_lines)
      ≡ some (codes "1: PUSH_STR \"A\"B\" (line 10)"))
    × (format_instruction_line to_string 9 (at OpCode.jump (int (pos 4))) (some counting_lines)
        ≡ some (codes "9: JUMP 4"))
    × (format_instruction_line to_string 0 (at OpCode.jump (str [])) none ≡ none)
unfolding format_instruction_line
listed = (refl, refl, refl)
