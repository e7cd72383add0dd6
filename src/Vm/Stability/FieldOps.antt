-- ===== src/Vm/Stability/FieldOps.antt =====
-- The opcodes on attributes and those that call out keep every stable property.
use gemini_system.Prelude.{Bool, true, false, List, Option, none, some, Text, ℤ, ℕ}
use gemini_system.Vm.Values.{Value}
use gemini_system.Vm.Machine.{
  Runtime, Instruction, OpCode, Callees, Result, ok, raise, FieldRef, FieldKind, attribute_field,
  f_correlative, i_correlative,
}
use gemini_system.Vm.Reasoning.{Keeps, IsStable, stack_rules}
use gemini_system.Files.State
use gemini_system.Files.State.{FileSystem, FileSystemError}
use gemini_system.Files.Items.{Record}
use gemini_system.Files.Handles.{FileHandle}
use gemini_system.Records.{StructuredRecord}
use gemini_system.Vm.Stability.FileOps.{file_rules}
use gemini_system.Vm.FieldOps

module _ {F : Type 0} {P : Runtime F → Type 0} (stable : IsStable P) (env : Callees F) where
  pub found_record-Keeps :
      (op : OpCode) (id : Text) (x : State.Result (Option Record))
      → Keeps P (FieldOps.found_record op id x)
  unfolding FieldOps.found_record
  found_record-Keeps op id (State.ok none) = search stack_rules depth 14 fits 3000
  found_record-Keeps op id (State.ok (some rec)) = search stack_rules depth 14 fits 3000
  found_record-Keeps op id (State.err e) = search stack_rules depth 14 fits 3000

  pub push_field-Keeps :
      (op : OpCode) (sr : StructuredRecord) (n : ℤ) (z : ℤ)
      → Keeps P (FieldOps.push_field op sr n z)
  unfolding FieldOps.push_field
  push_field-Keeps op sr n z = search stack_rules depth 14 fits 3000

  pub try_field-Keeps :
      (sr : StructuredRecord) (n : ℤ) (z : ℤ) → Keeps P (FieldOps.try_field sr n z)
  unfolding FieldOps.try_field
  try_field-Keeps sr n z = search file_rules depth 14 fits 3000

  after_callee-Keeps : (x : Result (Unit {0}) × List (Value F)) → Keeps P (FieldOps.after_callee x)
  unfolding FieldOps.after_callee
  after_callee-Keeps (ok u, s) = record { kept = λ r p. stable.stack r s p }
  after_callee-Keeps (raise e, s) = record { kept = λ r p. stable.stack r s p }

  pub exec_invoke_builtin-Keeps : (i : Instruction F) → Keeps P (FieldOps.exec_invoke_builtin env i)
  unfolding FieldOps.exec_invoke_builtin
  exec_invoke_builtin-Keeps i = search (stack_rules, after_callee-Keeps) depth 14 fits 3000

  dispatch-Keeps :
      (o : Option (ℕ → ℕ → ℤ → List (Value F) → Result (Unit {0}) × List (Value F)))
      (i : Instruction F)
      → Keeps P (FieldOps.dispatch env o i)
  unfolding FieldOps.dispatch
  dispatch-Keeps none i = search stack_rules
  dispatch-Keeps (some registry) i = search (stack_rules, after_callee-Keeps) depth 14 fits 3000

  pub exec_call_func-Keeps : (i : Instruction F) → Keeps P (FieldOps.exec_call_func env i)
  unfolding FieldOps.exec_call_func
  exec_call_func-Keeps i = dispatch-Keeps env.registry i

  pub push_computed-Keeps :
      (op : OpCode) (fs : FileSystem) (file : Text) (token : Text) (sr : StructuredRecord) (z : ℤ)
      → Keeps P (FieldOps.push_computed env op fs file token sr z)
  unfolding FieldOps.push_computed
  push_computed-Keeps op fs file token sr z = search stack_rules depth 14 fits 3000

  pub read_field-Keeps :
      (op : OpCode) (fs : FileSystem) (file : Text) (sr : StructuredRecord) (slot : Value F)
      (t : Option Text) (z : ℤ)
      → Keeps P (FieldOps.read_field env op fs file sr slot t z)
  unfolding FieldOps.read_field
  read_field-Keeps op fs file sr slot none z =
      search (stack_rules, push_computed-Keeps, push_field-Keeps) depth 14 fits 3000
  read_field-Keeps op fs file sr slot (some t) z =
      search (stack_rules, push_computed-Keeps, push_field-Keeps) depth 14 fits 3000

  pub exec_read_v-Keeps : (i : Instruction F) → Keeps P (FieldOps.exec_read_v env i)
  unfolding FieldOps.exec_read_v
  exec_read_v-Keeps i = search (file_rules, found_record-Keeps, read_field-Keeps) depth 14 fits 3000

  pub push_cell-Keeps :
      (fs : FileSystem) (file : Text) (token : Text) (sr : StructuredRecord)
      → Keeps P (FieldOps.push_cell env fs file token sr)
  unfolding FieldOps.push_cell
  push_cell-Keeps fs file token sr = search file_rules depth 14 fits 3000

  pub try_computed-Keeps :
      (fs : FileSystem) (file : Text) (token : Text) (sr : StructuredRecord)
      → Keeps P (FieldOps.try_computed env fs file token sr)
  unfolding FieldOps.try_computed
  try_computed-Keeps fs file token sr = search (file_rules, push_cell-Keeps) depth 14 fits 3000

  pub try_read_field-Keeps :
      (fs : FileSystem) (file : Text) (sr : StructuredRecord) (slot : Value F) (t : Option Text)
      (z : ℤ)
      → Keeps P (FieldOps.try_read_field env fs file sr slot t z)
  unfolding FieldOps.try_read_field
  try_read_field-Keeps fs file sr slot none z =
      search (file_rules, try_computed-Keeps, try_field-Keeps) depth 14 fits 3000
  try_read_field-Keeps fs file sr slot (some t) z =
      search (file_rules, try_computed-Keeps, try_field-Keeps) depth 14 fits 3000

  pub try_in_record-Keeps :
      (fs : FileSystem) (file : Text) (slot : Value F) (z : ℤ) (x : State.Result (Option Record))
      → Keeps P (FieldOps.try_in_record env fs file slot z x)
  unfolding FieldOps.try_in_record
  try_in_record-Keeps fs file slot z (State.ok none) =
      search (file_rules, try_read_field-Keeps) depth 14 fits 3000
  try_in_record-Keeps fs file slot z (State.ok (some rec)) =
      search (file_rules, try_read_field-Keeps) depth 14 fits 3000
  try_in_record-Keeps fs file slot z (State.err e) =
      search (file_rules, try_read_field-Keeps) depth 14 fits 3000

  pub exec_read_v_try-Keeps : (i : Instruction F) → Keeps P (FieldOps.exec_read_v_try env i)
  unfolding FieldOps.exec_read_v_try
  exec_read_v_try-Keeps i = search (file_rules, try_in_record-Keeps) depth 14 fits 3000

  pub exec_extract_attr-Keeps : Keeps P (FieldOps.exec_extract_attr env)
  unfolding FieldOps.exec_extract_attr
  exec_extract_attr-Keeps = search stack_rules depth 14 fits 3000

  pub push_number-Keeps : (o : Option ℤ) → Keeps P (FieldOps.push_number env o)
  unfolding FieldOps.push_number
  push_number-Keeps none = search file_rules depth 14 fits 3000
  push_number-Keeps (some z) = search file_rules depth 14 fits 3000

  pub token_if-Keeps : (token : Text) (b : Bool) → Keeps P (FieldOps.token_if env token b)
  unfolding FieldOps.token_if
  token_if-Keeps token true = search file_rules depth 14 fits 3000
  token_if-Keeps token false = search file_rules depth 14 fits 3000

  pub push_by_kind-Keeps :
      (token : Text) (ref : FieldRef) (k : FieldKind)
      → Keeps P (FieldOps.push_by_kind env token ref k)
  unfolding FieldOps.push_by_kind
  push_by_kind-Keeps token ref attribute_field =
      search (stack_rules, push_number-Keeps, token_if-Keeps) depth 14 fits 3000
  push_by_kind-Keeps token ref f_correlative =
      search (stack_rules, push_number-Keeps, token_if-Keeps) depth 14 fits 3000
  push_by_kind-Keeps token ref i_correlative =
      search (stack_rules, push_number-Keeps, token_if-Keeps) depth 14 fits 3000

  pub push_reference-Keeps :
      (token : Text) (x : Result FieldRef) → Keeps P (FieldOps.push_reference env token x)
  unfolding FieldOps.push_reference
  push_reference-Keeps token (raise e) = search (file_rules, push_by_kind-Keeps) depth 14 fits 3000
  push_reference-Keeps token (ok ref) = search (file_rules, push_by_kind-Keeps) depth 14 fits 3000

  pub exec_resolve_dict_attr-Keeps :
      (i : Instruction F) → Keeps P (FieldOps.exec_resolve_dict_attr env i)
  unfolding FieldOps.exec_resolve_dict_attr
  exec_resolve_dict_attr-Keeps i = search (file_rules, push_reference-Keeps) depth 14 fits 3000

  pub after_field-Keeps :
      (v : Text) (h : FileHandle) (x : State.Result (Unit {0}))
      → Keeps P (FieldOps.after_field env v h x)
  unfolding FieldOps.after_field
  after_field-Keeps v h (State.ok u) = search file_rules depth 14 fits 3000
  after_field-Keeps v h (State.err e) = search file_rules depth 14 fits 3000

  pub exec_write_v-Keeps : (i : Instruction F) → Keeps P (FieldOps.exec_write_v env i)
  unfolding FieldOps.exec_write_v
  exec_write_v-Keeps i = search (file_rules, after_field-Keeps) depth 14 fits 3000

  pub after_try_field-Keeps :
      (v : Text) (h : FileHandle) (x : State.Result (Unit {0}))
      → Keeps P (FieldOps.after_try_field env v h x)
  unfolding FieldOps.after_try_field
  after_try_field-Keeps v h (State.ok u) = search file_rules depth 14 fits 3000
  after_try_field-Keeps v h (State.err e) = search file_rules depth 14 fits 3000

  pub exec_write_v_try-Keeps : (i : Instruction F) → Keeps P (FieldOps.exec_write_v_try env i)
  unfolding FieldOps.exec_write_v_try
  exec_write_v_try-Keeps i = search (file_rules, after_try_field-Keeps) depth 14 fits 3000
