-- ===== src/Vm/Control.antt =====
-- The opcodes that set the instruction pointer, and those on variables.
use gemini_system.Prelude.{
  ℕ, suc, Bool, ◌||◌, not, List, [], ◌∷◌, Option, none, some, Text, text_beq, text_eq,
  if◌then◌else◌, ℤ, pos, ◌+ℤ◌, is_zero_ℤ, ltb_ℤ, positive,
}
use gemini_system.Prelude.Assoc.{find, put}
use gemini_system.Vm.Values.{is_read_only_name, Value, int, coerce_to_int}
use gemini_system.Vm.Machine.{
  push, pop, name_operand, pop_int, checked_int, writable, set_ip, defined, pop_as_int, pop_as_text,
  lift, get, put_state, unless, return_value, fail, ◌>>=◌, ◌>>◌, Vm, Flow, next, jumped, Runtime,
  Callees, Instruction, ok, raise, int_of_operand, to_size, ForFrame, return_without_gosub,
  zero_step, next_without_for, for_next_mismatch, undefined_variable, chain_without_name,
  chain_request,
}
use gemini_system.Files.Host.{is_empty}

abbrev pub is_done : ForFrame → ℤ → Bool
is_done frame v = if ltb_ℤ (pos 0) frame.step then ltb_ℤ frame.limit v else ltb_ℤ v frame.limit

abbrev pub without_innermost : List ForFrame → List ForFrame
without_innermost [] = []
without_innermost (frame ∷ rest) = rest

module _ {F : Type 0} where
  unfoldable pub exec_jump : Instruction F → Vm F Flow
  exec_jump i = do target ← lift (int_of_operand i.op i.operand); set_ip (to_size target)

  unfoldable pub exec_jump_if_zero : Instruction F → Vm F Flow
  exec_jump_if_zero i = do
    target ← lift (int_of_operand i.op i.operand)
    v ← pop_int i.op
    if is_zero_ℤ v then set_ip (to_size target) else return_value next

  unfoldable pub exec_call : Instruction F → Vm F Flow
  exec_call i = do
    target ← lift (int_of_operand i.op i.operand)
    r ← get
    put_state (record r { call_stack = suc r.ip ∷ r.call_stack })
    set_ip (to_size target)

  unfoldable pub return_to : List ℕ → Vm F Flow
  return_to [] r = (raise return_without_gosub, r)
  return_to (target ∷ rest) r = (ok jumped, record r { ip = target; call_stack = rest })

  unfoldable pub exec_return : Vm F Flow
  exec_return r = return_to r.call_stack r

  unfoldable pub exec_set_on_error_handler : Instruction F → Vm F Flow
  exec_set_on_error_handler i = do
    target ← lift (int_of_operand i.op i.operand)
    r ← get
    put_state (record r { on_error_ip = positive target })
    return_value next

  unfoldable pub exec_clear_vars : Vm F Flow
  exec_clear_vars = do
    r ← get
    put_state (record r { variables = []; arrays = [] })
    return_value next

  unfoldable pub set_variable : Text → Value F → Vm F (Unit {0})
  set_variable name v r = (ok tt, record r { variables = put name v r.variables })

  unfoldable pub exec_store_var : Instruction F → Vm F Flow
  exec_store_var i = do
    name ← name_operand i
    writable name
    v ← pop
    set_variable name v
    return_value next

  unfoldable pub innermost : List ForFrame → Vm F ForFrame
  innermost [] = fail next_without_for
  innermost (frame ∷ rest) = return_value frame

  unfoldable pub leave_loop : Vm F Flow
  leave_loop r = (ok next, record r { for_stack = without_innermost r.for_stack })

module _ {F : Type 0} (env : Callees F) where
  abbrev pub system_value : Bool → Text → Option (Text → Option (Value F)) → Option (Value F)
  system_value read_only name none = none
  system_value read_only name (some reader) = if read_only then reader name else none

  unfoldable pub push_found : Text → Option (Value F) → Vm F Flow
  push_found name none = fail (undefined_variable name)
  push_found name (some v) = do push v; return_value next

  unfoldable pub push_variable : Text → Option (Value F) → Runtime F → Vm F Flow
  push_variable name none r = push_found name (find name r.variables)
  push_variable name (some v) r = do push v; return_value next

  unfoldable pub exec_load_var : Instruction F → Vm F Flow
  exec_load_var i = do
    name ← name_operand i
    r ← get
    push_variable name (system_value (is_read_only_name name) name env.system_var_reader) r

  -- `FOR`: the limit and the step stand on the stack, and the body is behind this instruction.
  unfoldable pub exec_for_setup : Instruction F → Vm F Flow
  exec_for_setup i = do
    name ← name_operand i
    step ← pop_as_int env
    limit ← pop_as_int env
    unless (not (is_zero_ℤ step)) zero_step
    r ← get
    let frame : ForFrame = record {
      var_name = name;
      limit = limit;
      step = step;
      body_ip = suc r.ip;
    }
    put_state (record r { for_stack = frame ∷ r.for_stack })
    return_value next

  abbrev pub current_or_zero : Option (Value F) → Option ℤ
  current_or_zero none = some (pos 0)
  current_or_zero (some v) = coerce_to_int env.numerics v

  -- `NEXT`: with a name it must be that of the innermost loop.
  unfoldable pub exec_for_next : Instruction F → Vm F Flow
  exec_for_next i = do
    name ← name_operand i
    r ← get
    frame ← innermost r.for_stack
    unless (is_empty name || text_beq frame.var_name name) for_next_mismatch
    cur ← defined (current_or_zero (find frame.var_name r.variables))
    new_val ← checked_int (cur +ℤ frame.step)
    writable frame.var_name
    set_variable frame.var_name (int new_val)
    if is_done frame new_val then leave_loop else set_ip frame.body_ip

  unfoldable pub exec_chain : Vm F Flow
  exec_chain = do
    name ← pop_as_text env
    unless (not (is_empty name)) chain_without_name
    fail (chain_request name)
