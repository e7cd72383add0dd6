-- ===== src/Vm/Console.antt =====
-- The opcodes that print and that read a line.
use gemini_system.Prelude.{
  ℕ, List, [], ◌∷◌, ◌++◌, Option, none, some, Text, text_eq, if◌then◌else◌, ℤ, pos, negsuc, leb,
}
use gemini_system.Vm.Values.{int, flt, str, value_to_string, parse_int_line, trim, whole}
use gemini_system.Vm.Machine.{
  push, pop_int, pop_string, pop_as_text, return_value, fail, ◌>>=◌, ◌>>◌, Vm, Flow, next, Callees,
  OpCode, ok, raise, end_of_input, invalid_input, code_point_out_of_range,
}

abbrev pub byte_of : ℤ → Option ℕ
byte_of (pos n) = if leb n 255 then some n else none
byte_of (negsuc n) = none

module _ {F : Type 0} where
  unfoldable pub print_text : Text → Vm F (Unit {0})
  print_text t r = (ok tt, record r { output = r.output ++ t })

  unfoldable pub line_of : OpCode → List Text → Vm F Text
  line_of op [] r = (raise (end_of_input op), r)
  line_of op (line ∷ rest) r = (ok line, record r { input = rest })

  -- `readInputLine`, with the error at the end of the stream.
  unfoldable pub input_line : OpCode → Vm F Text
  input_line op r = line_of op r.input r

  unfoldable pub exec_print_str : OpCode → Vm F Flow
  exec_print_str op = do t ← pop_string op; print_text t; return_value next

  unfoldable pub exec_print_eol : Vm F Flow
  exec_print_eol = do print_text (b'\n' ∷ []); return_value next

  unfoldable pub print_byte : Option ℕ → Vm F Flow
  print_byte none = fail code_point_out_of_range
  print_byte (some c) = do print_text (c ∷ []); return_value next

  unfoldable pub exec_print_char : OpCode → Vm F Flow
  exec_print_char op = do z ← pop_int op; print_byte (byte_of z)

  unfoldable pub valid_input : OpCode → {A : Type 0} → Option A → Vm F A
  valid_input op none = fail (invalid_input op)
  valid_input op (some a) = return_value a

  unfoldable pub exec_input_int : OpCode → Vm F Flow
  exec_input_int op = do
    line ← input_line op
    z ← valid_input op (parse_int_line line)
    push (int z)
    return_value next

  unfoldable pub exec_input_str : OpCode → Vm F Flow
  exec_input_str op = do line ← input_line op; push (str (trim line)); return_value next

module _ {F : Type 0} (env : Callees F) where
  unfoldable pub exec_print_int : OpCode → Vm F Flow
  exec_print_int op = do
    z ← pop_int op
    print_text (value_to_string env.numerics (int z))
    return_value next

  unfoldable pub exec_print_val : Vm F Flow
  exec_print_val = do t ← pop_as_text env; print_text t; return_value next

  -- `std::stod` skips the space that `strtod` skips, and throws where that reads nothing.
  unfoldable pub exec_input_flt : OpCode → Vm F Flow
  exec_input_flt op = do
    line ← input_line op
    x ← valid_input op (whole (env.numerics.strtod (trim line)))
    push (flt x)
    return_value next
