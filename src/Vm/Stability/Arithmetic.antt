-- ===== src/Vm/Stability/Arithmetic.antt =====
-- The opcodes on the top of the stack keep every stable property.
use gemini_system.Prelude.{Bool, List, [], ◌∷◌, Option, none, some, ℤ}
use gemini_system.Vm.Values.{Value, Order}
use gemini_system.Vm.Machine.{Runtime, Instruction, OpCode, Callees}
use gemini_system.Vm.Reasoning.{Keeps, IsStable, stack_rules}
use gemini_system.Vm.Arithmetic

module _ {F : Type 0} {P : Runtime F → Type 0} (stable : IsStable P) (env : Callees F) where
  pub exec_push_int-Keeps : (i : Instruction F) → Keeps P (Arithmetic.exec_push_int i)
  unfolding Arithmetic.exec_push_int
  exec_push_int-Keeps i = search stack_rules depth 14 fits 3000

  pub exec_push_flt-Keeps : (i : Instruction F) → Keeps P (Arithmetic.exec_push_flt i)
  unfolding Arithmetic.exec_push_flt
  exec_push_flt-Keeps i = search stack_rules depth 14 fits 3000

  pub exec_push_str-Keeps : (i : Instruction F) → Keeps P (Arithmetic.exec_push_str i)
  unfolding Arithmetic.exec_push_str
  exec_push_str-Keeps i = search stack_rules depth 14 fits 3000

  pub exec_concat-Keeps : (op : OpCode) → Keeps P (Arithmetic.exec_concat op)
  unfolding Arithmetic.exec_concat
  exec_concat-Keeps op = search stack_rules depth 14 fits 3000

  pub duplicate-Keeps : (s : List (Value F)) → Keeps P (Arithmetic.duplicate s)
  unfolding Arithmetic.duplicate
  duplicate-Keeps [] = search stack_rules depth 14 fits 3000
  duplicate-Keeps (v ∷ s) = search stack_rules depth 14 fits 3000

  pub exec_dup-Keeps : Keeps P Arithmetic.exec_dup
  unfolding Arithmetic.exec_dup
  exec_dup-Keeps = search (stack_rules, duplicate-Keeps) depth 14 fits 3000

  pub exec_drop-Keeps : Keeps P Arithmetic.exec_drop
  unfolding Arithmetic.exec_drop
  exec_drop-Keeps = search stack_rules depth 14 fits 3000

  pub exec_mod-Keeps : (op : OpCode) → Keeps P (Arithmetic.exec_mod op)
  unfolding Arithmetic.exec_mod
  exec_mod-Keeps op = search stack_rules depth 14 fits 3000

  pub combined-Keeps :
      (f : ℤ → ℤ → ℤ) (v : Value F) (o : Option (ℤ × ℤ)) → Keeps P (Arithmetic.combined env f v o)
  unfolding Arithmetic.combined
  combined-Keeps f v none = search stack_rules depth 14 fits 3000
  combined-Keeps f v (some (a, b)) = search stack_rules depth 14 fits 3000

  pub exec_combine-Keeps :
      (f : ℤ → ℤ → ℤ) (g : F → F → F) → Keeps P (Arithmetic.exec_combine env f g)
  unfolding Arithmetic.exec_combine
  exec_combine-Keeps f g = search (stack_rules, combined-Keeps) depth 14 fits 3000

  pub exec_add-Keeps : Keeps P (Arithmetic.exec_add env)
  unfolding Arithmetic.exec_add
  exec_add-Keeps = search (stack_rules, exec_combine-Keeps) depth 14 fits 3000

  pub exec_sub-Keeps : Keeps P (Arithmetic.exec_sub env)
  unfolding Arithmetic.exec_sub
  exec_sub-Keeps = search (stack_rules, exec_combine-Keeps) depth 14 fits 3000

  pub exec_mul-Keeps : Keeps P (Arithmetic.exec_mul env)
  unfolding Arithmetic.exec_mul
  exec_mul-Keeps = search (stack_rules, exec_combine-Keeps) depth 14 fits 3000

  pub divided-Keeps : (q : F) (o : Option (ℤ × ℤ)) → Keeps P (Arithmetic.divided env q o)
  unfolding Arithmetic.divided
  divided-Keeps q none = search stack_rules depth 14 fits 3000
  divided-Keeps q (some (a, b)) = search stack_rules depth 14 fits 3000

  pub exec_div-Keeps : Keeps P (Arithmetic.exec_div env)
  unfolding Arithmetic.exec_div
  exec_div-Keeps = search (stack_rules, divided-Keeps) depth 14 fits 3000

  pub ordered-Keeps : (op : OpCode) (o : Option Order) → Keeps P (Arithmetic.ordered env op o)
  unfolding Arithmetic.ordered
  ordered-Keeps op none = search stack_rules depth 14 fits 3000
  ordered-Keeps op (some o) = search stack_rules depth 14 fits 3000

  pub exec_compare-Keeps :
      (op : OpCode) (test : Order → Bool) → Keeps P (Arithmetic.exec_compare env op test)
  unfolding Arithmetic.exec_compare
  exec_compare-Keeps op test = search (stack_rules, ordered-Keeps) depth 14 fits 3000

  pub exec_coerce_int-Keeps : Keeps P (Arithmetic.exec_coerce_int env)
  unfolding Arithmetic.exec_coerce_int
  exec_coerce_int-Keeps = search stack_rules depth 14 fits 3000

  pub exec_coerce_flt-Keeps : Keeps P (Arithmetic.exec_coerce_flt env)
  unfolding Arithmetic.exec_coerce_flt
  exec_coerce_flt-Keeps = search stack_rules depth 14 fits 3000

  pub exec_abs-Keeps : Keeps P (Arithmetic.exec_abs env)
  unfolding Arithmetic.exec_abs
  exec_abs-Keeps = search stack_rules depth 14 fits 3000

  pub exec_sgn-Keeps : Keeps P (Arithmetic.exec_sgn env)
  unfolding Arithmetic.exec_sgn
  exec_sgn-Keeps = search stack_rules depth 14 fits 3000

  pub exec_seq-Keeps : Keeps P (Arithmetic.exec_seq env)
  unfolding Arithmetic.exec_seq
  exec_seq-Keeps = search stack_rules depth 14 fits 3000
