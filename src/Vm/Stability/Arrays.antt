-- ===== src/Vm/Stability/Arrays.antt =====
-- The opcodes on arrays keep every stable property.
use gemini_system.Prelude.{false, List, ◌≡◌, Option, none, some, Text}
use gemini_system.Vm.Values.{Value}
use gemini_system.Vm.Machine.{Runtime, Instruction, Callees, VmError}
use gemini_system.Vm.Reasoning.{Keeps, IsStable, stack_rules}
use gemini_system.Vm.Values.{is_read_only_name}
use gemini_system.Vm.Arrays

module _ {F : Type 0} {P : Runtime F → Type 0} (stable : IsStable P) (env : Callees F) where
  set_array-Keeps :
      (name : Text) (vs : List (Value F))
      → is_read_only_name name ≡ false
      → Keeps P (Arrays.set_array name vs)
  unfolding Arrays.set_array
  set_array-Keeps name vs h = record { kept = λ r p. stable.dimensioned r name vs h p }

  pub or_fail-Keeps : {A : Type 0} (e : VmError) (o : Option A) → Keeps P (Arrays.or_fail e o)
  unfolding Arrays.or_fail
  or_fail-Keeps e none = search stack_rules depth 14 fits 3000
  or_fail-Keeps e (some a) = search stack_rules depth 14 fits 3000

  pub array-Keeps : (e : VmError) (name : Text) → Keeps P (Arrays.array e name)
  unfolding Arrays.array
  array-Keeps e name = search (stack_rules, or_fail-Keeps) depth 14 fits 3000

  pub exec_dim_array-Keeps : (i : Instruction F) → Keeps P (Arrays.exec_dim_array env i)
  unfolding Arrays.exec_dim_array
  exec_dim_array-Keeps i =
      search (stack_rules, or_fail-Keeps, array-Keeps, set_array-Keeps) depth 14 fits 3000

  pub exec_load_arr-Keeps : (i : Instruction F) → Keeps P (Arrays.exec_load_arr env i)
  unfolding Arrays.exec_load_arr
  exec_load_arr-Keeps i = search (stack_rules, or_fail-Keeps, array-Keeps) depth 14 fits 3000

  pub exec_store_arr-Keeps : (i : Instruction F) → Keeps P (Arrays.exec_store_arr env i)
  unfolding Arrays.exec_store_arr
  exec_store_arr-Keeps i =
      search (stack_rules, or_fail-Keeps, array-Keeps, set_array-Keeps) depth 14 fits 3000

  pub exec_mat_init-Keeps : (i : Instruction F) → Keeps P (Arrays.exec_mat_init env i)
  unfolding Arrays.exec_mat_init
  exec_mat_init-Keeps i =
      search (stack_rules, or_fail-Keeps, array-Keeps, set_array-Keeps) depth 14 fits 3000

  pub exec_mat_copy-Keeps : (i : Instruction F) → Keeps P (Arrays.exec_mat_copy env i)
  unfolding Arrays.exec_mat_copy
  exec_mat_copy-Keeps i =
      search (stack_rules, or_fail-Keeps, array-Keeps, set_array-Keeps) depth 14 fits 3000

  pub exec_mat_load-Keeps : (i : Instruction F) → Keeps P (Arrays.exec_mat_load env i)
  unfolding Arrays.exec_mat_load
  exec_mat_load-Keeps i =
      search (stack_rules, or_fail-Keeps, array-Keeps, set_array-Keeps) depth 14 fits 3000

  pub exec_mat_store-Keeps : (i : Instruction F) → Keeps P (Arrays.exec_mat_store env i)
  unfolding Arrays.exec_mat_store
  exec_mat_store-Keeps i =
      search (stack_rules, or_fail-Keeps, array-Keeps, set_array-Keeps) depth 14 fits 3000
