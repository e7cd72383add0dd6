-- ===== src/Vm/Stability/Console.antt =====
-- Printing and reading keep every stable property.
use gemini_system.Prelude.{List, [], ◌∷◌, Option, none, some, Text, ℕ}
use gemini_system.Vm.Machine.{Runtime, OpCode, Callees}
use gemini_system.Vm.Reasoning.{Keeps, IsStable, stack_rules}
use gemini_system.Vm.Console

module _ {F : Type 0} {P : Runtime F → Type 0} (stable : IsStable P) (env : Callees F) where
  pub print_text-Keeps : (t : Text) → Keeps P (Console.print_text t)
  unfolding Console.print_text
  print_text-Keeps t = record { kept = λ r p. stable.printed r _ p }

  pub line_of-Keeps : (op : OpCode) (ls : List Text) → Keeps P (Console.line_of op ls)
  unfolding Console.line_of
  line_of-Keeps op [] = record { kept = λ r p. p }
  line_of-Keeps op (l ∷ ls) = record { kept = λ r p. stable.consumed r _ p }

  pub input_line-Keeps : (op : OpCode) → Keeps P (Console.input_line op)
  unfolding Console.input_line
  input_line-Keeps op = record { kept = λ r p. (line_of-Keeps op r.input).kept r p }

  pub exec_print_str-Keeps : (op : OpCode) → Keeps P (Console.exec_print_str op)
  unfolding Console.exec_print_str
  exec_print_str-Keeps op = search (stack_rules, print_text-Keeps) depth 14 fits 3000

  pub exec_print_eol-Keeps : Keeps P Console.exec_print_eol
  unfolding Console.exec_print_eol
  exec_print_eol-Keeps = search (stack_rules, print_text-Keeps) depth 14 fits 3000

  pub print_byte-Keeps : (o : Option ℕ) → Keeps P (Console.print_byte o)
  unfolding Console.print_byte
  print_byte-Keeps none = search (stack_rules, print_text-Keeps) depth 14 fits 3000
  print_byte-Keeps (some c) = search (stack_rules, print_text-Keeps) depth 14 fits 3000

  pub exec_print_char-Keeps : (op : OpCode) → Keeps P (Console.exec_print_char op)
  unfolding Console.exec_print_char
  exec_print_char-Keeps op = search (stack_rules, print_byte-Keeps) depth 14 fits 3000

  pub valid_input-Keeps :
      (op : OpCode) {A : Type 0} (o : Option A) → Keeps P (Console.valid_input op o)
  unfolding Console.valid_input
  valid_input-Keeps op none = search stack_rules depth 14 fits 3000
  valid_input-Keeps op (some a) = search stack_rules depth 14 fits 3000

  pub exec_input_int-Keeps : (op : OpCode) → Keeps P (Console.exec_input_int op)
  unfolding Console.exec_input_int
  exec_input_int-Keeps op =
      search (stack_rules, input_line-Keeps, valid_input-Keeps) depth 14 fits 3000

  pub exec_input_str-Keeps : (op : OpCode) → Keeps P (Console.exec_input_str op)
  unfolding Console.exec_input_str
  exec_input_str-Keeps op = search (stack_rules, input_line-Keeps) depth 14 fits 3000

  pub exec_print_int-Keeps : (op : OpCode) → Keeps P (Console.exec_print_int env op)
  unfolding Console.exec_print_int
  exec_print_int-Keeps op = search (stack_rules, print_text-Keeps) depth 14 fits 3000

  pub exec_print_val-Keeps : Keeps P (Console.exec_print_val env)
  unfolding Console.exec_print_val
  exec_print_val-Keeps = search (stack_rules, print_text-Keeps) depth 14 fits 3000

  pub exec_input_flt-Keeps : (op : OpCode) → Keeps P (Console.exec_input_flt env op)
  unfolding Console.exec_input_flt
  exec_input_flt-Keeps op =
      search (stack_rules, input_line-Keeps, valid_input-Keeps) depth 14 fits 3000
