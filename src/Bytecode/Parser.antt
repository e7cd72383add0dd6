-- ===== src/Bytecode/Parser.antt =====
-- `Parser::parse`: a program from its text, in two passes.
use gemini_system.Prelude.{
  ℕ, suc, Bool, true, false, List, [], ◌∷◌, Option, none, some, Text, text_eq, ltb, nat_beq, ℤ, pos,
  negsuc, if◌then◌else◌, length,
}
use gemini_system.Prelude.Assoc.{Assoc, find, put}
use gemini_system.Files.Host.{is_empty}
use gemini_system.Vm.Values.{
  Value, int, flt, str, Numerics, stoi, whole, trim, trim_front, trim_back, stoi_from, skip_space,
}
use gemini_system.Vm.Machine.{Instruction, CallFuncOperand, OpCode}
use gemini_system.Bytecode.Table.{
  Reading, nothing, number, float, quoted, named, target, handler, call_operand, branch_of,
}
use gemini_system.Bytecode.Lines.{
  ParsedLine, parse_line, parse_nonnegative_int, parse_call_func_operands, parse_quoted_string,
  split_items, strip_prefix, prefix, parse_basic_lines_metadata, read_numbers,
}

-- What `parse` throws; the number is that of the line.
pub data ParseError : Type 0 where
  takes_no_operand requires_operand invalid_operand unknown_label unknown_opcode : ℕ → ParseError
  invalid_metadata metadata_size_mismatch no_int_target target_out_of_range : ParseError

pub data Parsed (A : Type 0) : Type 0 where
  ok : A → Parsed A
  err : ParseError → Parsed A

abbrev pub and_then : {A B : Type 0} → Parsed A → (A → Parsed B) → Parsed B
and_then (ok a) k = k a
and_then (err e) k = err e

abbrev pub or_err : {A : Type 0} → ParseError → Option A → Parsed A
or_err e none = err e
or_err e (some a) = ok a

-- An instruction starts with the operand 0 and no call.
abbrev pub no_call : CallFuncOperand
no_call = record { namespace_id = 0; function_id = 0; arg_count = pos 0 }

abbrev pub Labels : Type 0
Labels = Assoc Text ℕ

abbrev pub first_of : Option (ℤ × Text) → Option ℤ
first_of none = none
first_of (some (z, rest)) = some z

abbrev pub label_or : Option ℕ → Option ℕ → Option ℕ
label_or none found = found
label_or (some n) found = some n

module _ {F : Type 0} (n : Numerics F) where
  abbrev pub plain : OpCode → Value F → Instruction F
  plain op v = record { op = op; operand = v; call_func = no_call }

  abbrev pub with_operand : OpCode → Parsed (Value F) → Parsed (Instruction F)
  with_operand op v = and_then v (λ v. ok (plain op v))

  abbrev pub text_value : ℕ → Option Text → Parsed (Value F)
  text_value line none = err (invalid_operand line)
  text_value line (some t) = ok (str t)

  abbrev pub int_value : ParseError → Option ℤ → Parsed (Value F)
  int_value e none = err e
  int_value e (some z) = ok (int z)

  abbrev pub index_value : ParseError → Option ℕ → Parsed (Value F)
  index_value e none = err e
  index_value e (some k) = ok (int (pos k))

  abbrev pub float_value : ParseError → Option F → Parsed (Value F)
  float_value e none = err e
  float_value e (some x) = ok (flt x)

  abbrev pub call_value : OpCode → ParseError → Option CallFuncOperand → Parsed (Instruction F)
  call_value op e none = err e
  call_value op e (some c) = ok (record { op = op; operand = int (pos 0); call_func = c })

  unfoldable pub read_operand : Labels → ParsedLine → OpCode → Reading → Parsed (Instruction F)
  unfolding parse_quoted_string parse_nonnegative_int parse_call_func_operands stoi_from skip_space
      find
  read_operand labels pl op nothing =
      if is_empty pl.operand
      then ok (plain op (int (pos 0)))
      else err (takes_no_operand pl.source_line)
  read_operand labels pl op number =
      with_operand op (int_value (invalid_operand pl.source_line) (first_of (stoi pl.operand)))
  read_operand labels pl op float =
      with_operand op (float_value (invalid_operand pl.source_line) (whole (n.strtod pl.operand)))
  read_operand labels pl op quoted =
      with_operand op (text_value pl.source_line (parse_quoted_string pl.operand))
  read_operand labels pl op named =
      if is_empty pl.operand
      then err (requires_operand pl.source_line)
      else with_operand op (text_value pl.source_line (parse_quoted_string pl.operand))
  read_operand labels pl op target = with_operand op (
      index_value (unknown_label pl.source_line)
        (label_or (parse_nonnegative_int pl.operand) (find pl.operand labels)))
  read_operand labels pl op handler =
      if is_empty pl.operand
      then err (requires_operand pl.source_line)
      else with_operand op (int_value (invalid_operand pl.source_line) (first_of (stoi pl.operand)))
  read_operand labels pl op call_operand =
      call_value op (invalid_operand pl.source_line) (parse_call_func_operands pl.operand)

  abbrev pub in_branch : Labels → ParsedLine → Option (OpCode × Reading) → Parsed (Instruction F)
  in_branch labels pl none = err (unknown_opcode pl.source_line)
  in_branch labels pl (some (op, reading)) = read_operand labels pl op reading

  -- The chain of tests of the second pass.
  unfoldable pub parse_instruction : Labels → ParsedLine → Parsed (Instruction F)
  unfolding branch_of read_operand
  parse_instruction labels pl = in_branch labels pl (branch_of pl.opcode)

  unfoldable pub second_pass : Labels → List ParsedLine → Parsed (List (Instruction F))
  unfolding parse_instruction
  second_pass labels [] = ok []
  second_pass labels (pl ∷ pls) =
      and_then (parse_instruction labels pl)
        (λ i. and_then (second_pass labels pls) (λ is. ok (i ∷ is)))

  abbrev pub is_control : OpCode → Bool
  is_control OpCode.jump = true
  is_control OpCode.jump_if_zero = true
  is_control OpCode.call = true
  is_control _ = false

  abbrev pub check_target : ℕ → Value F → Parsed (Unit {0})
  check_target size (int (pos t)) = if ltb t size then ok tt else err target_out_of_range
  check_target size (int (negsuc t)) = err target_out_of_range
  check_target size (flt x) = err no_int_target
  check_target size (str t) = err no_int_target

  unfoldable pub validate_targets : ℕ → List (Instruction F) → Parsed (Unit {0})
  validate_targets size [] = ok tt
  validate_targets size (i ∷ is) =
      and_then (if is_control i.op then check_target size i.operand else ok tt)
        (λ u. validate_targets size is)

-- What the first pass gathers.
pub record Gathered : Type 0 where
  pub labels : Labels
  pub lines : List ParsedLine
  pub metadata : List ℤ

abbrev pub gather_line : ℕ → ℕ → ParsedLine → Labels → Labels
gather_line index line pl labels = if is_empty pl.label then labels else put pl.label index labels

abbrev pub onto_lines : ℕ → ParsedLine → Gathered → Gathered
onto_lines line pl g =
    if is_empty pl.opcode
    then g
    else record g { lines = record pl { source_line = line } ∷ g.lines }

abbrev pub counted : ParsedLine → ℕ → ℕ
counted pl index = if is_empty pl.opcode then index else suc index

abbrev pub metadata_of : Option (List ℤ) → Parsed (List ℤ)
metadata_of none = err invalid_metadata
metadata_of (some ns) = ok ns

abbrev pub heading_or : (Text → Parsed Gathered) → Parsed Gathered → Option Text → Parsed Gathered
heading_or read otherwise none = otherwise
heading_or read otherwise (some csv) = read csv

-- The lines from the one with this number on; `index` instructions stand in front of them.
unfoldable pub first_pass : ℕ → ℕ → Labels → List ℤ → List Text → Parsed Gathered
unfolding parse_line read_numbers split_items strip_prefix put trim_front trim_back
first_pass line index labels metadata [] =
    ok (record { labels = labels; lines = []; metadata = metadata })
first_pass line index labels metadata (t ∷ ts) =
    let pl = parse_line t in
    let rest =
      first_pass (suc line) (counted pl index) (gather_line index line pl labels) metadata ts in
    let read = λ (csv : Text).
      and_then (metadata_of (parse_basic_lines_metadata csv))
        (λ ns. first_pass (suc line) index labels ns ts) in
    heading_or read (and_then rest (λ g. ok (onto_lines line pl g))) (strip_prefix prefix (trim t))

pub record LoadedBytecode (F : Type 0) : Type 0 where
  pub program : List (Instruction F)
  pub labels : Labels
  pub source_line_per_instr : List ℤ

abbrev pub physical_lines : List ParsedLine → List ℤ
physical_lines [] = []
physical_lines (pl ∷ pls) = pos pl.source_line ∷ physical_lines pls

-- The lines of the metadata, if there are any, and otherwise those of the text.
abbrev pub source_lines : ℕ → List ℤ → List ParsedLine → Parsed (List ℤ)
source_lines size [] pls = ok (physical_lines pls)
source_lines size (l ∷ ls) pls =
    if nat_beq (length (l ∷ ls)) size then ok (l ∷ ls) else err metadata_size_mismatch

unfoldable pub parse : {F : Type 0} → Numerics F → Text → Parsed (LoadedBytecode F)
unfolding first_pass second_pass validate_targets split_items
parse n text = and_then (first_pass 1 0 [] [] (split_items b'\n' text)) (λ g.
    and_then (second_pass n g.labels g.lines) (λ program.
      and_then (source_lines (length program) g.metadata g.lines) (λ lines.
        and_then (validate_targets n (length program) program) (λ u.
          ok (record { program = program; labels = g.labels; source_line_per_instr = lines })))))
